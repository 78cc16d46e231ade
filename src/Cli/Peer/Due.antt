-- ===== src/Cli/Peer/Due.antt =====
-- Which types a round of `SharedStateCli::peer` in app/shared_state_cli.cc synchronizes.
use shared_state_async.Prelude.{
  ℕ, zero, suc, ◌%◌, Bool, true, false, ◌||◌, ◌==◌, Option, none, some, List, [], ◌∷◌,
  if◌then◌else◌, All, ◌≡◌, ◌≢◌, refl, arith, inl, inr, ◌⊎◌,
}
use shared_state_async.Prelude.Int.{ℤ, pos, negsuc}
use shared_state_async.Prelude.Map.{Map, lookup, IsMap}
use shared_state_async.Prelude.Bytes.{Bytes, bytes_eq, bytes_key, bytes_eq_iff}
use shared_state_async.Errors.{ok, crash}
use shared_state_async.State.{DataTypeConf}
use shared_state_async.Cli.Peer.{is_due, add_if, should_sync_types}

-- Whether an interval, not 0, divides the time.
abbrev pub divides : ℕ → ℤ → Bool
divides now (pos zero) = false
divides now (pos (suc n)) = now % suc n == 0
divides now (negsuc n) = now % suc n == 0

abbrev pub is_listed : Bytes → List Bytes → Bool
is_listed k [] = false
is_listed k (name ∷ names) = bytes_eq name k || is_listed k names

abbrev pub is_wanted : ℕ → Option DataTypeConf → Bool
is_wanted now none = false
is_wanted now (some c) = divides now c.m_update_interval

is_due-divides :
    (now : ℕ) (interval : ℤ) → interval ≢ pos 0 → is_due now interval ≡ ok (divides now interval)
unfolding is_due
is_due-divides now (pos zero) h = absurd (h refl)
is_due-divides now (pos (suc n)) h = refl
is_due-divides now (negsuc n) h = refl

listed-add_if :
    (k name : Bytes) (due : Bool) (names : List Bytes)
    → is_listed k (add_if name due names)
      ≡ ((if due then bytes_eq name k else false) || is_listed k names)
listed-add_if k name true names = refl
listed-add_if k name false names = refl

-- Where no update interval is 0 and each type is named once, the types that a round synchronizes
-- are exactly the registered ones whose interval divides the time in seconds.
pub should_sync_types_lem :
    (now : ℕ) (conf : Map Bytes DataTypeConf)
    → IsMap conf
    → All (λ item. item.1.m_update_interval ≢ pos 0) conf
    → (names : List Bytes) × (should_sync_types now conf ≡ ok names)
      × ((k : Bytes) → is_listed k names ≡ is_wanted now (lookup k conf))
unfolding should_sync_types lookup
should_sync_types_lem now [] u h = ([], refl, λ k. refl)
should_sync_types_lem now ((name, c) ∷ conf) u h =
    let (names, e, at) = should_sync_types_lem now conf u.1 h.1 in
    let due = divides now c.m_update_interval in
    (
      add_if name due names,
      rw (is_due-divides now c.m_update_interval h.0, e) refl,
      λ k. ground (arith, listed-add_if k name due names, at k, u.0, bytes_eq_iff name k),
    )

zero_or_not : (i : ℤ) → (i ≡ pos 0) ⊎ (i ≢ pos 0)
zero_or_not (pos zero) = inl refl
zero_or_not (pos (suc n)) = inr (λ e. cc e)
zero_or_not (negsuc n) = inr (λ e. cc e)

-- A single type with an update interval of 0 makes the choice of the types divide by zero,
-- whatever the time and the other types are.
pub should_sync_types-zero :
    (now : ℕ) (k : Bytes) (c : DataTypeConf) (conf : Map Bytes DataTypeConf)
    → lookup k conf ≡ some c
    → c.m_update_interval ≡ pos 0
    → should_sync_types now conf ≡ crash
unfolding should_sync_types lookup is_due
should_sync_types-zero now k c [] p z = absurd (cc p)
should_sync_types-zero now k c ((name, c') ∷ conf) p z = elim (zero_or_not c'.m_update_interval) [
  | inl e ↦ rw e refl
  | inr ne ↦
      let rest = should_sync_types-zero now k c conf (ground (arith, ne, z, p)) z in
      rw (is_due-divides now c'.m_update_interval ne, rest) refl
]
