-- ===== src/State/Merge.antt =====
-- `SharedState::merge` of src/sharedstate.cc.
pub mod Lookup
pub mod Counts
pub mod Sync
use shared_state_async.Prelude.{
  ℕ, zero, suc, ◌+◌, Bool, true, false, ◌&&◌, Option, none, some, List, [], ◌∷◌, if◌then◌else◌,
}
use shared_state_async.Prelude.Int.{ℤ, pos, ◌+ℤ◌, wrap_int64, leb_ℤ, ltb_ℤ}
use shared_state_async.Prelude.Map.{Map, lookup, insert, erase}
use shared_state_async.Prelude.Bytes.{Bytes, bytes_eq, bytes_key}
use shared_state_async.Errors.{Result, ok, fail, throw, unkown_data_type}
use shared_state_async.State.{StateEntry, StateSlice, DataTypeConf, SharedState}

-- The variables of the loop over the slice.
pub record Merging (Json : Type 0) : Type 0 where
  pub t_state : StateSlice Json
  pub significant_changes : ℕ
  pub all_changes : ℕ

-- The test that discards a remote copy of an own entry.
unfoldable pub is_discarded :
    {Json : Type 0} → Bytes → Bool → StateEntry Json → StateEntry Json → Bool
is_discarded host is_remote known slice_entry =
    is_remote && bytes_eq known.m_author host && ltb_ℤ known.m_ttl slice_entry.m_ttl

-- What the merge asks of its surroundings: `!=` on JSON values, and the two facts about the call
-- that it computes once, `authorPlaceOlder()` and `!sockaddr_storage_isLoopbackNet(peerAddr)`.
module _ {Json : Type 0} (json_ne : Json → Json → Bool) (host : Bytes) (is_remote : Bool) where
  -- The update of an entry that is known already.
  unfoldable pub merge_known :
      Bytes → StateEntry Json → StateEntry Json → Merging Json → Merging Json
  unfolding is_discarded
  merge_known state_key known slice_entry m =
      if is_discarded host is_remote known slice_entry
      then m
      else if leb_ℤ known.m_ttl slice_entry.m_ttl
      then record {
        t_state = insert state_key slice_entry (erase state_key m.t_state);
        significant_changes =
            (if json_ne known.m_data slice_entry.m_data
              then m.significant_changes + 1
              else m.significant_changes);
        all_changes = m.all_changes + 1;
      }
      else m

  -- One round of the loop.
  unfoldable pub merge_entry : Bytes → StateEntry Json → Merging Json → Merging Json
  unfolding merge_known
  merge_entry state_key slice_entry m = elim (lookup state_key m.t_state) [
    | none ↦ record {
      t_state = insert state_key slice_entry m.t_state;
      significant_changes = m.significant_changes + 1;
      all_changes = m.all_changes + 1;
    }
    | some known ↦ merge_known state_key known slice_entry m
  ]

  unfoldable pub merge_loop : StateSlice Json → Merging Json → Merging Json
  unfolding merge_entry
  merge_loop [] m = m
  merge_loop ((state_key, slice_entry) ∷ rest) m =
      merge_loop rest (merge_entry state_key slice_entry m)

  -- The merge of a slice into the state of one type.
  unfoldable pub merge_slice : StateSlice Json → StateSlice Json → Merging Json
  unfolding merge_loop
  merge_slice t_state state_slice =
      merge_loop state_slice
        (record { t_state = t_state; significant_changes = 0; all_changes = 0 })

  -- The whole call: the new storage, and the number of significant changes. The exception is
  -- `mTypeConf.at`'s.
  unfoldable pub merge : Bytes → StateSlice Json → SharedState Json → Result ℕ × SharedState Json
  merge data_type_name state_slice s = elim (lookup data_type_name s.m_states) [
    | none ↦ (fail unkown_data_type, s)
    | some t_state ↦ elim (lookup data_type_name s.m_type_conf) [
      | none ↦ (throw, s)
      | some _ ↦
          let merged = merge_slice t_state state_slice in
          (
            ok merged.significant_changes,
            record s { m_states = insert data_type_name merged.t_state s.m_states },
          )
    ]
  ]

-- `minUpdateTtl`, which the code computes and does not use.
unfoldable pub min_update_ttl : {Json : Type 0} → Bytes → Bool → StateEntry Json → ℤ
min_update_ttl host is_remote known =
    if is_remote && bytes_eq known.m_author host
    then wrap_int64 (known.m_ttl +ℤ pos 1)
    else known.m_ttl
