-- ===== src/State/Merge/Lookup.antt =====
-- What `merge` of src/sharedstate.cc leaves under each key, and in the rest of the storage.
use shared_state_async.Prelude.{
  Bool, ◌&&◌, not, Option, none, some, [], ◌∷◌, if◌then◌else◌, ◌≡◌, refl, arith, Option-cases, ◌⊎◌,
  inl, inr, ◌≢◌,
}
use shared_state_async.Prelude.Int.{leb_ℤ, ltb_ℤ}
use shared_state_async.Prelude.Map.{
  lookup, erase, lookup-insert, lookup-erase, IsMap, insert-IsMap, erase-IsMap,
}
use shared_state_async.Prelude.Bytes.{Bytes, bytes_eq, bytes_key, bytes_eq_iff, bytes_eq_refl}
use shared_state_async.Errors.{ok, fail, throw, unkown_data_type}
use shared_state_async.State.{StateEntry, StateSlice, DataTypeConf, SharedState}
use shared_state_async.State.Merge.{Merging, merge_entry, merge_loop, merge_slice, merge}

module _ {Json : Type 0} (host : Bytes) (is_remote : Bool) where
  -- Whether the received entry takes the place of the known one.
  abbrev pub replaces : StateEntry Json → StateEntry Json → Bool
  replaces k s =
      leb_ℤ k.m_ttl s.m_ttl
      && not (is_remote && (bytes_eq k.m_author host && ltb_ℤ k.m_ttl s.m_ttl))

  -- The entry that stays under a key, given the one held and the one in the slice.
  abbrev pub winner : Option (StateEntry Json) → Option (StateEntry Json) → Option (StateEntry Json)
  winner known none = known
  winner none (some s) = some s
  winner (some k) (some s) = if replaces k s then some s else some k

module _ {Json : Type 0} (json_ne : Json → Json → Bool) (host : Bytes) (is_remote : Bool) where
  pub lookup-merge_entry :
      (j k : Bytes) (e : StateEntry Json) (m : Merging Json)
      → lookup k (merge_entry json_ne host is_remote j e m).t_state ≡ (
          if bytes_eq j k
          then winner host is_remote (lookup k m.t_state) (some e)
          else lookup k m.t_state)
  unfolding merge_entry
  lookup-merge_entry j k e m = elim (Option-cases (lookup j m.t_state)) [
    | inl p ↦ ground (arith, bytes_eq_iff j k, lookup-insert j k e m.t_state)
    | inr (known, p) ↦ ground (
      arith,
      bytes_eq_iff j k,
      lookup-insert j k e (erase j m.t_state),
      lookup-erase j k m.t_state,
    )
  ]

  lookup-merge_loop :
      (k : Bytes) (slice : StateSlice Json) (m : Merging Json)
      → IsMap slice
      → lookup k (merge_loop json_ne host is_remote slice m).t_state
        ≡ winner host is_remote (lookup k m.t_state) (lookup k slice)
  unfolding lookup merge_loop
  lookup-merge_loop k [] m h = refl
  lookup-merge_loop k ((j, e) ∷ rest) m h = ground (
    arith,
    bytes_eq_iff j k,
    lookup-merge_loop k rest (merge_entry json_ne host is_remote j e m) h.1,
    lookup-merge_entry j k e m,
  )

  pub lookup-merge_slice :
      (k : Bytes) (t_state slice : StateSlice Json)
      → IsMap slice
      → lookup k (merge_slice json_ne host is_remote t_state slice).t_state
        ≡ winner host is_remote (lookup k t_state) (lookup k slice)
  unfolding merge_slice
  lookup-merge_slice k t_state slice h = lookup-merge_loop k slice _ h

  merge_entry-IsMap :
      (j : Bytes) (e : StateEntry Json) (m : Merging Json)
      → IsMap m.t_state
      → IsMap (merge_entry json_ne host is_remote j e m).t_state
  unfolding merge_entry
  merge_entry-IsMap j e m h = ground (
    arith,
    insert-IsMap j e m.t_state h,
    erase-IsMap j m.t_state h,
    insert-IsMap j e (erase j m.t_state),
  )

  merge_loop-IsMap :
      (slice : StateSlice Json) (m : Merging Json)
      → IsMap m.t_state
      → IsMap (merge_loop json_ne host is_remote slice m).t_state
  unfolding merge_loop
  merge_loop-IsMap [] m h = h
  merge_loop-IsMap ((j, e) ∷ rest) m h =
      merge_loop-IsMap rest (merge_entry json_ne host is_remote j e m) (merge_entry-IsMap j e m h)

  pub merge_slice-IsMap :
      (t_state slice : StateSlice Json)
      → IsMap t_state
      → IsMap (merge_slice json_ne host is_remote t_state slice).t_state
  unfolding merge_slice
  merge_slice-IsMap t_state slice h = merge_loop-IsMap slice _ h

  -- The entry that the storage holds for a type under a key.
  abbrev pub entry_at : Bytes → Bytes → SharedState Json → Option (StateEntry Json)
  entry_at type_name k s = elim (lookup type_name s.m_states) [
    | none ↦ none
    | some t_state ↦ lookup k t_state
  ]

  -- For a type with a state and a configuration, and a slice that names each key once, `merge`
  -- succeeds. Under each key of that type the entry with the higher TTL stays, the received one at
  -- equal TTLs, except that a remote copy with a higher TTL of an entry of this host's own
  -- authorship is dropped. No other type's state, no configuration and not the peer flag changes.
  pub merge_lem :
      (name : Bytes) (slice t_state : StateSlice Json) (conf : DataTypeConf) (s : SharedState Json)
      → lookup name s.m_states ≡ some t_state
      → lookup name s.m_type_conf ≡ some conf
      → IsMap slice
      → ((merge json_ne host is_remote name slice s).0
          ≡ ok (merge_slice json_ne host is_remote t_state slice).significant_changes)
        × ((k : Bytes)
            → entry_at name k (merge json_ne host is_remote name slice s).1
              ≡ winner host is_remote (lookup k t_state) (lookup k slice))
        × ((other : Bytes)
            → name ≢ other
            → lookup other (merge json_ne host is_remote name slice s).1.m_states
              ≡ lookup other s.m_states)
        × ((merge json_ne host is_remote name slice s).1.m_type_conf ≡ s.m_type_conf)
        × ((merge json_ne host is_remote name slice s).1.is_peer ≡ s.is_peer)
  unfolding merge
  merge_lem name slice t_state conf s known registered h = (
    ground arith,
    λ k. ground (
      arith,
      lookup-merge_slice k t_state slice h,
      lookup-insert name name (merge_slice json_ne host is_remote t_state slice).t_state s.m_states,
      bytes_eq_refl name,
    ),
    λ other ne. ground (
      arith,
      bytes_eq_iff name other,
      lookup-insert name other (merge_slice json_ne host is_remote t_state slice).t_state
          s.m_states,
    ),
    ground arith,
    ground arith,
  )

  -- A type without a state or without a configuration: nothing changes. The call fails with
  -- `unkown_data_type` where there is no state, else `at` throws.
  pub merge_refused :
      (name : Bytes) (slice : StateSlice Json) (s : SharedState Json)
      → (lookup name s.m_states ≡ none) ⊎ (lookup name s.m_type_conf ≡ none)
      → merge json_ne host is_remote name slice s
        ≡ (elim (lookup name s.m_states) [ none ↦ fail unkown_data_type | some _ ↦ throw ], s)
  unfolding merge
  merge_refused name slice s h = ground arith
