-- ===== src/Wire/Io/Preserves.antt =====
-- Coroutines after which a predicate on the world still holds, whatever their result.
use shared_state_async.Prelude.{Bool, true, false}
use shared_state_async.Errors.{Error, Result, ok, fail, throw, crash}
use shared_state_async.Wire.Io.{Io, pure, lift, continue, fail_if, ◌>>=◌}

module _ {W : Type 0} (P : W → Type 0) where
  pub record Preserves {A : Type 0} (m : Io W A) : Type 0 where
    pub preserved : (w : W) → P w → P (m w).1

  pub Preserves-continue :
      {A B : Type 0} (r : Result A) (k : A → Io W B)
      → ((a : A) → Preserves (k a))
      → Preserves (continue r k)
  Preserves-continue (ok a) k h = h a
  Preserves-continue (fail e) k h = record { preserved = λ w p. p }
  Preserves-continue throw k h = record { preserved = λ w p. p }
  Preserves-continue crash k h = record { preserved = λ w p. p }

  pub Preserves-bind :
      {A B : Type 0} {m : Io W A} {k : A → Io W B}
      → Preserves m
      → ((a : A) → Preserves (k a))
      → Preserves (m >>= k)
  Preserves-bind {m} {k} h hk = record {
    preserved = λ w p. (Preserves-continue (m w).0 k hk).preserved (m w).1 (h.preserved w p);
  }

  pub Preserves-fail_if : (b : Bool) (e : Error) → Preserves (fail_if b e)
  unfolding fail_if
  Preserves-fail_if true e = record { preserved = λ w p. p }
  Preserves-fail_if false e = record { preserved = λ w p. p }

  pub Preserves-pure : {A : Type 0} (a : A) → Preserves (pure a)
  Preserves-pure a = record { preserved = λ w p. p }

  pub Preserves-lift : {A : Type 0} (r : Result A) → Preserves (lift r)
  Preserves-lift r = record { preserved = λ w p. p }
