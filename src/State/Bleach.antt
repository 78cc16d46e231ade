-- ===== src/State/Bleach.antt =====
-- `SharedState::bleach` of src/sharedstate.cc: the entries age by a number of seconds.
pub mod Laws
pub mod Steps
use shared_state_async.Prelude.{ℕ, ◌-◌, Bool, not, none, some, length, if◌then◌else◌}
use shared_state_async.Prelude.Int.{ℤ, pos, ◌-ℤ◌, wrap_int64, leb_ℤ, ltb_ℤ}
use shared_state_async.Prelude.Map.{lookup, insert, keep_if, map_values}
use shared_state_async.Prelude.Bytes.{Bytes, bytes_key}
use shared_state_async.Errors.{Result, ok, fail, invalid_argument, unkown_data_type}
use shared_state_async.State.{StateEntry, StateSlice, SharedState}

module _ {Json : Type 0} where
  -- The predicate of `std::erase_if`, negated.
  abbrev pub outlives : ℤ → Bytes → StateEntry Json → Bool
  outlives times key item = not (leb_ℤ item.m_ttl times)

  -- `stateEntry.mTtl -= times`
  abbrev pub age : ℤ → StateEntry Json → StateEntry Json
  age times item = record item { m_ttl = wrap_int64 (item.m_ttl -ℤ times) }

  unfoldable pub bleach_slice : ℤ → StateSlice Json → StateSlice Json
  bleach_slice times t_state = map_values (age times) (keep_if (outlives times) t_state)

  unfoldable pub bleach : Bytes → ℤ → SharedState Json → Result ℕ × SharedState Json
  bleach data_type_name times s =
      if ltb_ℤ times (pos 1)
      then (fail invalid_argument, s)
      else elim (lookup data_type_name s.m_states) [
        | none ↦ (fail unkown_data_type, s)
        | some t_state ↦ (
          ok (length t_state - length (keep_if (outlives times) t_state)),
          record s { m_states = insert data_type_name (bleach_slice times t_state) s.m_states },
        )
      ]
