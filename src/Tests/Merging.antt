-- ===== src/Tests/Merging.antt =====
-- Merges at concrete inputs.
use shared_state_async.Prelude.{ℕ, true, false, some, ◌≡◌, ◌≢◌, refl, arith}
use shared_state_async.Prelude.Int.{◌+ℤ◌, ◌<ℤ◌}
use shared_state_async.Prelude.Map.{lookup}
use shared_state_async.Prelude.Bytes.{Bytes, bytes_eq, bytes_key}
use shared_state_async.Errors.{ok}
use shared_state_async.Tests.Storage.{
  json_ne, lime, node, babel, key_a, own, same_ttl, copy, held, received, overwriting, conf,
  storage, held-IsMap, received-IsMap, overwriting-IsMap,
}
use shared_state_async.State.Merge.{merge, merge_slice, min_update_ttl}
use shared_state_async.State.Merge.Lookup.{winner, entry_at, merge_lem}
use shared_state_async.State.Merge.Sync.{merge_slice-own_overwritten, sync_round_locks_out}

self-equal : (n : ℕ) → json_ne n n ≡ false
self-equal n = ground arith

merge_lem_example :
    ((merge json_ne lime true babel received storage).0
      ≡ ok (merge_slice json_ne lime true held received).significant_changes)
    × ((k : Bytes)
        → entry_at json_ne lime true babel k (merge json_ne lime true babel received storage).1
          ≡ winner lime true (lookup k held) (lookup k received))
    × ((other : Bytes)
        → babel ≢ other
        → lookup other (merge json_ne lime true babel received storage).1.m_states
          ≡ lookup other storage.m_states)
    × ((merge json_ne lime true babel received storage).1.m_type_conf ≡ storage.m_type_conf)
    × ((merge json_ne lime true babel received storage).1.is_peer ≡ storage.is_peer)
unfolding lookup bytes_eq
merge_lem_example =
    merge_lem json_ne lime true babel received held conf storage refl refl received-IsMap

merge_slice-own_overwritten_example :
    (lookup key_a (merge_slice json_ne lime true held overwriting).t_state ≡ some same_ttl)
    × (same_ttl.m_ttl <ℤ min_update_ttl lime true own)
unfolding lookup bytes_eq ◌+ℤ◌
merge_slice-own_overwritten_example =
    merge_slice-own_overwritten json_ne lime true key_a held overwriting own same_ttl
      overwriting-IsMap refl refl refl refl refl (omega arith, omega arith)

sync_round_locks_out_example :
    let s' = (merge_slice json_ne lime true held received).t_state in
    (lookup key_a s' ≡ some own)
    × (lookup key_a (merge_slice json_ne node true received s').t_state ≡ some copy)
unfolding lookup bytes_eq
sync_round_locks_out_example =
    sync_round_locks_out json_ne lime node true held received key_a own copy held-IsMap
      received-IsMap refl refl refl (omega arith)
