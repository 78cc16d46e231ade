-- ===== src/State/Types.antt =====
-- `SharedState::loadRegisteredTypes` and `SharedState::registerDataType` of src/sharedstate.cc: the
-- registered data types live in a configuration file that every process reads again.
pub mod Loading
pub mod Registering
use shared_state_async.Prelude.{
  ℕ, Bool, true, false, Option, none, some, [], ◌∷◌, length, ltb, if◌then◌else◌,
}
use shared_state_async.Prelude.Int.{ℤ}
use shared_state_async.Prelude.Map.{Map, lookup, insert, keep_if}
use shared_state_async.Prelude.Bytes.{Bytes, bytes_key}
use shared_state_async.Errors.{Result, ok, fail, throw, errno, invalid_argument, io_error}
use shared_state_async.State.{DataTypeConf, StateSlice, SharedState}

abbrev pub data_type_name_max_lenght : ℕ
data_type_name_max_lenght = 128

-- What opening and reading the configuration file comes to. `parsed c b` is a JSON document from
-- which the serializer library has filled the map `c`, leaving `ctx.mOk` at `b`.
pub data ConfigFile : Type 0 where
  not_open : ConfigFile
  parse_error : ConfigFile
  parsed : Map Bytes DataTypeConf → Bool → ConfigFile

module _ {Json : Type 0} where
  -- `mStates[typeName]` as a statement
  abbrev pub touch : Bytes → Map Bytes (StateSlice Json) → Map Bytes (StateSlice Json)
  touch type_name m_states = elim (lookup type_name m_states) [
    | none ↦ insert type_name [] m_states
    | some _ ↦ m_states
  ]

  -- Create empty states for new types.
  unfoldable pub add_states :
      Map Bytes DataTypeConf → Map Bytes (StateSlice Json) → Map Bytes (StateSlice Json)
  add_states [] m_states = m_states
  add_states ((type_name, _) ∷ conf) m_states = add_states conf (touch type_name m_states)

  abbrev pub is_registered : Map Bytes DataTypeConf → Bytes → StateSlice Json → Bool
  is_registered conf type_name _ = elim (lookup type_name conf) [ none ↦ false | some _ ↦ true ]

  unfoldable pub load_registered_types :
      ConfigFile → SharedState Json → Result Bool × SharedState Json
  load_registered_types not_open s = (fail errno, s)
  load_registered_types parse_error s = (fail errno, s)
  load_registered_types (parsed conf m_ok) s = (
    ok m_ok,
    record s {
      m_type_conf = conf;
      m_states = keep_if (is_registered conf) (add_states conf s.m_states);
    },
  )

-- What `registerDataType` meets outside the process: the file, whether the directory cannot be
-- created, whether the file opens for writing, the serializer's `ctx.mOk`, and what the document
-- holds where that is false.
pub record Surroundings : Type 0 where
  pub config : ConfigFile
  pub conf_dir_err : Bool
  pub is_open : Bool
  pub m_ok : Bool
  pub incomplete : Map Bytes DataTypeConf

-- The result of the call, the storage, and what it has written to the file.
pub record Registered (Json : Type 0) : Type 0 where
  pub result : Result Bool
  pub storage : SharedState Json
  pub written : Option (Map Bytes DataTypeConf)

module _ {Json : Type 0} where
  -- From the assignment of the configuration to the end.
  unfoldable pub write_conf : DataTypeConf → Surroundings → SharedState Json → Registered Json
  write_conf t_conf w s =
      let s' : SharedState Json = record s {
        m_type_conf = insert t_conf.m_name t_conf s.m_type_conf;
      } in
      if w.is_open
      then record {
        result = ok w.m_ok;
        storage = s';
        written = some (if w.m_ok then s'.m_type_conf else w.incomplete);
      }
      else record { result = fail io_error; storage = s'; written = none }

  unfoldable pub after_loading :
      DataTypeConf → Surroundings → Result Bool → SharedState Json → Registered Json
  after_loading t_conf w (ok true) s = write_conf t_conf w s
  after_loading t_conf w _ s =
      if w.conf_dir_err
      then record { result = fail errno; storage = s; written = none }
      else write_conf t_conf w s

  unfoldable pub register_data_type :
      Bytes → Bytes → ℤ → ℤ → Surroundings → SharedState Json → Registered Json
  register_data_type [] type_scope update_interval ttl w s = record {
    result = fail invalid_argument;
    storage = s;
    written = none;
  }
  register_data_type (c ∷ cs) type_scope update_interval ttl w s =
      if ltb data_type_name_max_lenght (length (c ∷ cs))
      then record { result = fail invalid_argument; storage = s; written = none }
      else let t_conf : DataTypeConf = record {
        m_name = c ∷ cs;
        m_scope = type_scope;
        m_update_interval = update_interval;
        m_bleach_ttl = ttl;
      } in
        let (r, s') = load_registered_types w.config s in after_loading t_conf w r s'
