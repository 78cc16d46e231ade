-- ===== src/State/Invariant.antt =====
-- The invariant of the storage of include/sharedstate.hh, which each operation keeps.
pub mod Merging
pub mod Loading
use mathlib.Core.Path.{subst}
use shared_state_async.Prelude.{
  ℕ, Bool, true, false, Option, none, some, List, [], ◌∷◌, ◌≡◌, ◌≢◌, refl, arith, All, Option-cases,
  Bool-cases, inl, inr,
}
use shared_state_async.Prelude.Int.{ℤ, pos, ◌≤ℤ◌, ltb_ℤ, IsInt64}
use shared_state_async.Prelude.Map.{
  Map, lookup, insert, erase, lookup-insert, IsMap, insert-IsMap, insert-All, erase-All,
  keep_if-IsMap,
}
use shared_state_async.Prelude.Bytes.{Bytes, bytes_eq, bytes_key, bytes_eq_iff, bytes_eq_refl}
use shared_state_async.Errors.{Result, ok, fail, throw}
use shared_state_async.State.{StateEntry, StateSlice, DataTypeConf, SharedState}
use shared_state_async.State.Merge.{merge}
use shared_state_async.State.Merge.Lookup.{merge_slice-IsMap}
use shared_state_async.State.Bleach.{bleach_slice, bleach}
use shared_state_async.State.Bleach.Laws.{HasRange, bleach_slice-IsMap}
use shared_state_async.State.Bleach.Steps.{bleach_slice-IsAlive}

-- The state of one type: each key once, TTLs that are `int64_t` values.
abbrev pub IsSlice : {Json : Type 0} → StateSlice Json → Type 0
IsSlice t = IsMap t × HasRange t

-- No type has a state without a configuration.
pub record IsValid {Json : Type 0} (s : SharedState Json) : Type 0 where
  pub states_IsMap : IsMap s.m_states
  pub conf_IsMap : IsMap s.m_type_conf
  pub registered : (k : Bytes) → lookup k s.m_type_conf ≡ none → lookup k s.m_states ≡ none
  pub slices : (k : Bytes) (t : StateSlice Json) → lookup k s.m_states ≡ some t → IsSlice t

module _ {Json : Type 0} where
  -- Giving a type that has a state another well-formed state.
  pub set_state-IsValid :
      (name : Bytes) (t : StateSlice Json) (s : SharedState Json)
      → IsValid s
      → lookup name s.m_states ≢ none
      → IsSlice t
      → IsValid (record s { m_states = insert name t s.m_states })
  set_state-IsValid name t s v known h = record {
    states_IsMap = insert-IsMap name t s.m_states v.states_IsMap;
    conf_IsMap = v.conf_IsMap;
    registered = λ k e.
        ground
          (arith, v.registered k e, lookup-insert name k t s.m_states, bytes_eq_iff name k, known);
    slices = λ k u e. elim (Bool-cases (bytes_eq name k)) [
      | inl same ↦
          let p : t ≡ u = ground (arith, lookup-insert name k t s.m_states) in subst IsSlice p h
      | inr other ↦ v.slices k u (ground (arith, lookup-insert name k t s.m_states))
    ];
  }
