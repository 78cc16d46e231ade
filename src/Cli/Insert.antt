-- ===== src/Cli/Insert.antt =====
-- `SharedStateCli::insert` of app/shared_state_cli.cc, up to the synchronization with the local peer.
pub mod Laws
use shared_state_async.Prelude.{
  ◌^◌, Bool, true, false, ◌&&◌, ltb, leb, if◌then◌else◌, Option, none, some, List, [], ◌∷◌,
}
use shared_state_async.Prelude.Int.{ℤ, pos, ◌+ℤ◌, pos_part, neg_part}
use shared_state_async.Prelude.Map.{Map, lookup, insert}
use shared_state_async.Prelude.Bytes.{Bytes, bytes_key}
use shared_state_async.Errors.{Result, ok, fail, throw, crash, unkown_data_type}
use shared_state_async.State.{StateEntry, StateSlice, DataTypeConf, SharedState}

-- A default-constructed configuration.
abbrev pub default_conf : DataTypeConf
default_conf = record { m_name = []; m_scope = []; m_update_interval = pos 0; m_bleach_ttl = pos 0 }

-- `mTypeConf[typeName]`, which creates a default configuration where there is none.
abbrev pub conf_at : Bytes → Map Bytes DataTypeConf → Map Bytes DataTypeConf × DataTypeConf
conf_at type_name conf = elim (lookup type_name conf) [
  | none ↦ (insert type_name default_conf conf, default_conf)
  | some c ↦ (conf, c)
]

abbrev fits_int64 : ℤ → Bool
fits_int64 a = ltb (pos_part a) (2 ^ 63) && leb (neg_part a) (2 ^ 63)

-- mBleachTTL + mUpdateInterval + 1s; the overflow of a signed sum is undefined.
unfoldable pub inserted_ttl : DataTypeConf → Result ℤ
inserted_ttl c =
    let sum = c.m_bleach_ttl +ℤ c.m_update_interval in
    if fits_int64 sum && fits_int64 (sum +ℤ pos 1) then ok (sum +ℤ pos 1) else crash

module _ {Json : Type 0} (host : Bytes) where
  -- One round of the loop over the members of the JSON object; all fields of the entry are set,
  -- be it new or known.
  unfoldable pub insert_member : ℤ → Bytes × Json → StateSlice Json → StateSlice Json
  insert_member ttl (name, value) t_state =
      insert name (record { m_author = host; m_ttl = ttl; m_data = value }) t_state

  unfoldable pub insert_loop : ℤ → List (Bytes × Json) → StateSlice Json → StateSlice Json
  insert_loop ttl [] t_state = t_state
  insert_loop ttl (member ∷ rest) t_state = insert_loop ttl rest (insert_member ttl member t_state)

  -- The members of the object on the standard input go into the state of the type. The loop's
  -- first round is the one that reads the configuration; without members nothing is read.
  unfoldable pub insert_members :
      Bytes → List (Bytes × Json) → SharedState Json → Result (Unit {0}) × SharedState Json
  insert_members type_name members s = elim (lookup type_name s.m_states) [
    | none ↦ (fail unkown_data_type, s)
    | some t_state ↦ elim members [
      | [] ↦ (ok tt, s)
      | member ∷ rest ↦
          let (conf, c) = conf_at type_name s.m_type_conf in
          elim (inserted_ttl c) [
            | ok ttl ↦ (
              ok tt,
              record s {
                m_states = insert type_name (insert_loop ttl (member ∷ rest) t_state) s.m_states;
                m_type_conf = conf;
              },
            )
            | fail e ↦ (fail e, s)
            | throw ↦ (throw, s)
            | crash ↦ (crash, s)
          ]
    ]
  ]
