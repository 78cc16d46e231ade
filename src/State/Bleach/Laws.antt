-- ===== src/State/Bleach/Laws.antt =====
-- What `bleach` of src/sharedstate.cc keeps, counts and guarantees.
use mathlib.Core.Option
use shared_state_async.Prelude.{
  ℕ, ◌+◌, false, Option, none, some, [], ◌∷◌, if◌then◌else◌, ◌≡◌, ◌⊎◌, refl, arith, length, All,
  Option-cases, Bool-cases, inl, inr, ◌≢◌, ap,
}
use shared_state_async.Prelude.Int.{
  ℤ, pos, ◌-ℤ◌, ◌≤ℤ◌, ◌<ℤ◌, IsInt64, wrap_int64_of_IsInt64, leb_ℤ, ltb_ℤ, -ℤ_parts,
}
use shared_state_async.Prelude.Map.{
  lookup, keep_if, kept, IsMap, lookup-keep_if, lookup-map_values, keep_if-IsMap, map_values-IsMap,
  lookup-insert,
}
use shared_state_async.Prelude.Bytes.{Bytes, bytes_key, bytes_eq_iff, bytes_eq_refl}
use shared_state_async.Errors.{ok, fail, invalid_argument, unkown_data_type}
use shared_state_async.State.{StateEntry, StateSlice, SharedState}
use shared_state_async.State.Bleach.{outlives, age, bleach_slice, bleach}

module _ {Json : Type 0} where
  -- The TTLs of a state are `int64_t` values.
  abbrev pub HasRange : StateSlice Json → Type 0
  HasRange = All (λ item. IsInt64 item.1.m_ttl)

  -- Where bleaching subtracts, nothing overflows.
  pub age_lem :
      (times : ℤ) (item : StateEntry Json)
      → pos 1 ≤ℤ times
      → IsInt64 item.m_ttl
      → leb_ℤ item.m_ttl times ≡ false
      → age times item ≡ record item { m_ttl = item.m_ttl -ℤ times }
  age_lem times item t r h =
      ground (arith, -ℤ_parts item.m_ttl times, wrap_int64_of_IsInt64 (item.m_ttl -ℤ times))

  -- What becomes of an entry.
  abbrev pub aged : ℤ → Option (StateEntry Json) → Option (StateEntry Json)
  aged times none = none
  aged times (some item) =
      if leb_ℤ item.m_ttl times then none else some (record item { m_ttl = item.m_ttl -ℤ times })

  lookup-HasRange :
      (k : Bytes) (t : StateSlice Json) (e : StateEntry Json)
      → HasRange t
      → lookup k t ≡ some e
      → IsInt64 e.m_ttl
  unfolding lookup
  lookup-HasRange k [] e h p = cc
  lookup-HasRange k ((j, d) ∷ t) e h p = ground (arith, lookup-HasRange k t e h.1)

  lookup-bleach_slice :
      (k : Bytes) (times : ℤ) (t : StateSlice Json)
      → IsMap t
      → HasRange t
      → pos 1 ≤ℤ times
      → lookup k (bleach_slice times t) ≡ aged times (lookup k t)
  unfolding bleach_slice
  lookup-bleach_slice k times t u r h =
      rw
        (
          lookup-map_values (age times) k (keep_if (outlives times) t),
          lookup-keep_if (outlives times) k t u,
        )
        (elim (Option-cases (lookup k t)) [
          | inl e ↦ rw e refl
          | inr (item, e) ↦ rw e (go item (lookup-HasRange k t item r e))
        ])
    where
      go :
          (item : StateEntry Json)
          → IsInt64 item.m_ttl
          → Option.map (age times) (kept (outlives times) k (some item)) ≡ aged times (some item)
      go item range = elim (Bool-cases (leb_ℤ item.m_ttl times)) [
        | inl e ↦ rw e refl
        | inr e ↦ rw e (ap some (age_lem times item h range e))
      ]

  -- The entries that a bleach removes.
  pub count_expired : ℤ → StateSlice Json → ℕ
  count_expired times [] = 0
  count_expired times ((k, item) ∷ t) =
      let n = count_expired times t in if leb_ℤ item.m_ttl times then n + 1 else n

  count_expired-keep_if :
      (times : ℤ) (t : StateSlice Json)
      → length (keep_if (outlives times) t) + count_expired times t ≡ length t
  unfolding count_expired keep_if
  count_expired-keep_if times [] = refl
  count_expired-keep_if times ((k, item) ∷ t) = ground (arith, count_expired-keep_if times t)

  pub bleach_slice-IsMap :
      (times : ℤ) (t : StateSlice Json) → IsMap t → IsMap (bleach_slice times t)
  unfolding bleach_slice
  bleach_slice-IsMap times t u =
      map_values-IsMap (age times) (keep_if (outlives times) t) (keep_if-IsMap (outlives times) t u)

  -- A bleach by at least a second of a type that has a state, which names each key once and has
  -- TTLs that are `int64_t` values, succeeds and returns the number of the entries whose TTL is
  -- not above the elapsed time. Those are gone, each other entry keeps its author and its data and
  -- has exactly the elapsed time less to live, with no overflow. No other type's state and no
  -- configuration changes.
  pub bleach_lem :
      (name : Bytes) (times : ℤ) (t : StateSlice Json) (s : SharedState Json)
      → pos 1 ≤ℤ times
      → lookup name s.m_states ≡ some t
      → IsMap t
      → HasRange t
      → let (r, s') = bleach name times s in
        (r ≡ ok (count_expired times t))
        × (lookup name s'.m_states ≡ some (bleach_slice times t))
        × ((k : Bytes) → lookup k (bleach_slice times t) ≡ aged times (lookup k t))
        × ((other : Bytes) → name ≢ other → lookup other s'.m_states ≡ lookup other s.m_states)
        × (s'.m_type_conf ≡ s.m_type_conf)
  unfolding bleach
  bleach_lem name times t s h known u r = (
    ground (arith, count_expired-keep_if times t),
    ground (arith, lookup-insert name name (bleach_slice times t) s.m_states, bytes_eq_refl name),
    λ k. lookup-bleach_slice k times t u r h,
    λ other ne. ground (
      arith,
      bytes_eq_iff name other,
      lookup-insert name other (bleach_slice times t) s.m_states,
    ),
    ground arith,
  )

  -- A number of seconds below 1 is refused with `invalid_argument`, whatever the type; else a type
  -- without a state is refused. In both cases nothing changes.
  pub bleach_refused :
      (name : Bytes) (times : ℤ) (s : SharedState Json)
      → (times <ℤ pos 1) ⊎ (lookup name s.m_states ≡ none)
      → bleach name times s
        ≡ (fail (if ltb_ℤ times (pos 1) then invalid_argument else unkown_data_type), s)
  unfolding bleach
  bleach_refused name times s h = ground arith
