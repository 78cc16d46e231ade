-- ===== src/Cli/Peer.antt =====
-- One round of the daemon's loop, `SharedStateCli::peer` of app/shared_state_cli.cc: it loads the
-- types again and synchronizes those whose update interval divides the present time.
pub mod Due
use shared_state_async.Prelude.{
  ℕ, zero, suc, ◌%◌, Bool, true, false, ◌==◌, List, [], ◌∷◌, if◌then◌else◌,
}
use shared_state_async.Prelude.Int.{ℤ, pos, negsuc}
use shared_state_async.Prelude.Map.{Map}
use shared_state_async.Prelude.Bytes.{Bytes}
use shared_state_async.Errors.{Result, ok, fail, throw, crash, ◌>>=◌}
use shared_state_async.State.{DataTypeConf, SharedState}
use shared_state_async.State.Types.{ConfigFile, load_registered_types}
use shared_state_async.Wire.Io
use shared_state_async.Wire.Io.{Io}
use shared_state_async.Sync.{Host, awaited, sync_with_peer}

-- Whether the remainder by an interval is zero; the remainder by zero is undefined.
unfoldable pub is_due : ℕ → ℤ → Result Bool
is_due now (pos zero) = crash
is_due now (pos (suc n)) = ok (now % suc n == 0)
is_due now (negsuc n) = ok (now % suc n == 0)

abbrev pub add_if : Bytes → Bool → List Bytes → List Bytes
add_if type_name due names = if due then type_name ∷ names else names

-- The loop over the configurations, at a time in seconds.
unfoldable pub should_sync_types : ℕ → Map Bytes DataTypeConf → Result (List Bytes)
should_sync_types now [] = ok []
should_sync_types now ((type_name, type_conf) ∷ rest) = do
  due ← is_due now type_conf.m_update_interval
  names ← should_sync_types now rest
  ok (add_if type_name due names)

module _ {W Json Addr : Type 0} (host : Host W Json Addr) where
  -- The loop over the peers; a failure to synchronize with one is noted only.
  unfoldable pub sync_peers : Bytes → List Addr → Io (SharedState Json × W) (Unit {0})
  sync_peers type_name [] v = (ok tt, v)
  sync_peers type_name (peer_address ∷ rest) v =
      let (r, v') = sync_with_peer host type_name peer_address v in
      elim r [
        | ok _ ↦ sync_peers type_name rest v'
        | fail _ ↦ sync_peers type_name rest v'
        | throw ↦ (throw, v')
        | crash ↦ (crash, v')
      ]

  unfoldable pub sync_types : List Bytes → List Addr → Io (SharedState Json × W) (Unit {0})
  sync_types [] peers v = (ok tt, v)
  sync_types (type_name ∷ rest) peers v =
      let (r, v') = sync_peers type_name peers v in
      elim r [
        | ok _ ↦ sync_types rest peers v'
        | fail e ↦ (fail e, v')
        | throw ↦ (throw, v')
        | crash ↦ (crash, v')
      ]

  -- Candidates are looked for only if there is something to synchronize.
  abbrev pub sync_due :
      Result (List Bytes) → Io W (List Addr) → Io (SharedState Json × W) (Unit {0})
  sync_due (ok []) candidates v = (ok tt, v)
  sync_due (ok (name ∷ names)) candidates v = elim (awaited host candidates v).0 [
    | ok peers ↦ sync_types (name ∷ names) peers (awaited host candidates v).1
    | fail e ↦ (fail e, (awaited host candidates v).1)
    | throw ↦ (throw, (awaited host candidates v).1)
    | crash ↦ (crash, (awaited host candidates v).1)
  ]
  sync_due (fail e) candidates v = (fail e, v)
  sync_due throw candidates v = (throw, v)
  sync_due crash candidates v = (crash, v)

  -- A round at a time in seconds: loading the types, without an error pointer, comes first.
  unfoldable pub peer_round :
      ConfigFile → ℕ → Io W (List Addr) → Io (SharedState Json × W) (Unit {0})
  peer_round config now candidates v =
      let (r, s) = load_registered_types config v.0 in
      elim r [
        | ok _ ↦ sync_due (should_sync_types now s.m_type_conf) candidates (s, v.1)
        | fail e ↦ (fail e, (s, v.1))
        | throw ↦ (throw, (s, v.1))
        | crash ↦ (crash, (s, v.1))
      ]
