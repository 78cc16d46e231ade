-- ===== src/Wire/Io.antt =====
-- A coroutine that talks to the system: it takes the state of the world and gives its result and
-- the next state. What has happened before an error has happened.
pub mod Preserves
use shared_state_async.Prelude.{Bool, true, false}
use shared_state_async.Errors.{Error, Result, ok, fail, throw, crash}

abbrev pub Io : Type 0 → Type 0 → Type 0
Io W A = W → Result A × W

module _ {W A : Type 0} where
  abbrev pub pure : A → Io W A
  pure a w = (ok a, w)

  abbrev pub lift : Result A → Io W A
  lift r w = (r, w)

module _ {W A B : Type 0} where
  abbrev pub continue : Result A → (A → Io W B) → Io W B
  continue (ok a) f w = f a w
  continue (fail e) f w = (fail e, w)
  continue throw f w = (throw, w)
  continue crash f w = (crash, w)

  infixl 10 ◌>>=◌ ◌>>◌
  abbrev pub ◌>>=◌ : Io W A → (A → Io W B) → Io W B
  ◌>>=◌ m f w = continue (m w).0 f (m w).1

  abbrev pub ◌>>◌ : Io W A → Io W B → Io W B
  m >> k = m >>= λ _. k

module _ {W : Type 0} where
  unfoldable pub fail_if : Bool → Error → Io W (Unit {0})
  fail_if true e w = (fail e, w)
  fail_if false e w = (ok tt, w)
