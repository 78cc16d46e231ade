-- ===== src/State/Bleach/Steps.antt =====
-- Bleaching in steps (src/sharedstate.cc, `bleach`): what is left is alive, and steps add up.
use shared_state_async.Prelude.{
  true, false, [], ◌∷◌, if◌then◌else◌, ◌≡◌, refl, arith, All, Bool-cases, inl, inr, ap,
}
use shared_state_async.Prelude.Int.{
  ℤ, pos, ◌+ℤ◌, ◌-ℤ◌, ◌≤ℤ◌, IsInt64, leb_ℤ, -ℤ_parts, +ℤ_parts, int_laws,
}
use shared_state_async.Prelude.Map.{keep_if, map_values}
use shared_state_async.Prelude.Bytes.{Bytes, bytes_key}
use shared_state_async.State.{StateEntry, StateSlice}
use shared_state_async.State.Bleach.{age, bleach_slice}
use shared_state_async.State.Bleach.Laws.{HasRange, age_lem}

leb_ℤ_add :
    (a first second : ℤ) → leb_ℤ a first ≡ true → pos 1 ≤ℤ second → leb_ℤ a (first +ℤ second) ≡ true
leb_ℤ_add a first second e h = ground (arith, +ℤ_parts first second)

leb_ℤ_sub : (a first second : ℤ) → leb_ℤ (a -ℤ first) second ≡ leb_ℤ a (first +ℤ second)
leb_ℤ_sub a first second = ground (arith, -ℤ_parts a first, +ℤ_parts first second)

module _ {Json : Type 0} where
  abbrev pub IsAlive : StateSlice Json → Type 0
  IsAlive = All (λ item. pos 1 ≤ℤ item.1.m_ttl)

  -- What a bleach leaves has at least one second to live, and TTLs that are `int64_t` values.
  pub bleach_slice-IsAlive :
      (times : ℤ) (t : StateSlice Json)
      → pos 1 ≤ℤ times
      → HasRange t
      → IsAlive (bleach_slice times t) × HasRange (bleach_slice times t)
  unfolding bleach_slice keep_if map_values
  bleach_slice-IsAlive times [] h r = (tt, tt)
  bleach_slice-IsAlive times ((k, item) ∷ t) h r = elim (Bool-cases (leb_ℤ item.m_ttl times)) [
    | inl e ↦ rw e (bleach_slice-IsAlive times t h r.1)
    | inr e ↦
        let rest = bleach_slice-IsAlive times t h r.1 in
        let ttl : (age times item).m_ttl ≡ item.m_ttl -ℤ times =
          ap (λ (aged_item : StateEntry Json). aged_item.m_ttl) (age_lem times item h r.0 e) in
        rw e (
          (rw ttl (ground (arith, -ℤ_parts item.m_ttl times)), rest.0),
          (rw ttl (ground (arith, -ℤ_parts item.m_ttl times)), rest.1),
        )
  ]

  bleach_slice-cons :
      (times : ℤ) (k : Bytes) (item : StateEntry Json) (t : StateSlice Json)
      → bleach_slice times ((k, item) ∷ t) ≡ (
          if leb_ℤ item.m_ttl times
          then bleach_slice times t
          else (k, age times item) ∷ bleach_slice times t)
  unfolding bleach_slice keep_if map_values
  bleach_slice-cons times k item t = elim (Bool-cases (leb_ℤ item.m_ttl times)) [
    | inl e ↦ rw e refl
    | inr e ↦ rw e refl
  ]

  age_twice :
      (first second : ℤ) (item : StateEntry Json)
      → pos 1 ≤ℤ first
      → pos 1 ≤ℤ second
      → IsInt64 item.m_ttl
      → leb_ℤ item.m_ttl (first +ℤ second) ≡ false
      → age second (record item { m_ttl = item.m_ttl -ℤ first }) ≡ age (first +ℤ second) item
  age_twice first second item h i r e =
      let mid : StateEntry Json = record item { m_ttl = item.m_ttl -ℤ first } in
      let p : age second mid ≡ record item { m_ttl = item.m_ttl -ℤ first -ℤ second } =
        age_lem second mid i (ground (arith, -ℤ_parts item.m_ttl first, +ℤ_parts first second))
          (ground (arith, -ℤ_parts item.m_ttl first, +ℤ_parts first second)) in
      let q : age (first +ℤ second) item ≡ record item { m_ttl = item.m_ttl -ℤ (first +ℤ second) } =
        age_lem (first +ℤ second) item (omega int_laws) r e in
      let same : item.m_ttl -ℤ first -ℤ second ≡ item.m_ttl -ℤ (first +ℤ second) = omega int_laws in
      cc (p, q, same)

  -- Bleaching by one time and then by another, each at least a second, is bleaching by their sum.
  pub bleach_slice_twice :
      (first second : ℤ) (t : StateSlice Json)
      → pos 1 ≤ℤ first
      → pos 1 ≤ℤ second
      → HasRange t
      → bleach_slice second (bleach_slice first t) ≡ bleach_slice (first +ℤ second) t
  bleach_slice_twice first second [] h i r = unfold bleach_slice keep_if map_values in refl
  bleach_slice_twice first second ((k, item) ∷ t) h i r =
      elim (Bool-cases (leb_ℤ item.m_ttl first)) [
        | inl e ↦
            rw (bleach_slice-cons, e)
              (rw
                (
                  bleach_slice-cons (first +ℤ second) k item t,
                  leb_ℤ_add item.m_ttl first second e i,
                )
                (bleach_slice_twice first second t h i r.1))
        | inr e ↦
            rw
              (
                bleach_slice-cons first k item t,
                e,
                age_lem first item h r.0 e,
                bleach_slice-cons second k (record item { m_ttl = item.m_ttl -ℤ first })
                    (bleach_slice first t),
                bleach_slice-cons (first +ℤ second) k item t,
                bleach_slice_twice first second t h i r.1,
                leb_ℤ_sub item.m_ttl first second,
              )
              (elim (Bool-cases (leb_ℤ item.m_ttl (first +ℤ second))) [
                | inl gone ↦ rw gone refl
                | inr stays ↦ rw (stays, age_twice first second item h i r.0 stays) refl
              ])
      ]
