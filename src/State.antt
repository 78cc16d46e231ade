-- ===== src/State.antt =====
-- The data of include/sharedstate.hh: entries, type configurations and the in-memory storage.
-- JSON values are those of a library, so their type is a parameter.
pub mod Merge
pub mod Bleach
pub mod Types
pub mod Invariant
use shared_state_async.Prelude.{Bool}
use shared_state_async.Prelude.Int.{ℤ}
use shared_state_async.Prelude.Map.{Map}
use shared_state_async.Prelude.Bytes.{Bytes}

pub record DataTypeConf : Type 0 where
  pub m_name : Bytes
  pub m_scope : Bytes
  pub m_update_interval : ℤ
  pub m_bleach_ttl : ℤ

pub record StateEntry (Json : Type 0) : Type 0 where
  pub m_author : Bytes
  pub m_ttl : ℤ
  pub m_data : Json

-- `std::map<StateKey, StateEntry>`: the state of one data type, and a slice received for it
abbrev pub StateSlice : Type 0 → Type 0
StateSlice Json = Map Bytes (StateEntry Json)

pub record SharedState (Json : Type 0) : Type 0 where
  pub m_states : Map Bytes (StateSlice Json)
  pub m_type_conf : Map Bytes DataTypeConf
  pub is_peer : Bool
