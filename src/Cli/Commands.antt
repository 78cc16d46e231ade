-- ===== src/Cli/Commands.antt =====
-- The commands `insert`, `dump`, `get` and `sync` of app/shared_state_cli.cc as a whole, with the
-- synchronizations they make. A call without an error pointer ends the process where it fails; the
-- failure is the result of the command then.
use shared_state_async.Prelude.{ℕ, Bool, true, false, Option, none, some, List, [], ◌∷◌, ◌++◌}
use shared_state_async.Prelude.Int.{ℤ}
use shared_state_async.Prelude.Map.{Map, lookup}
use shared_state_async.Prelude.Bytes.{Bytes, bytes_key}
use shared_state_async.Errors.{Error, Result, ok, fail, throw, crash, unkown_data_type}
use shared_state_async.State.{DataTypeConf, StateEntry, StateSlice, SharedState}
use shared_state_async.State.Types.{Surroundings, load_registered_types, register_data_type}
use shared_state_async.Wire.Io.{Io, pure, ◌>>=◌, ◌>>◌}
use shared_state_async.Sync.{Host, sync_with_peer}
use shared_state_async.Sync.Hooks.{clean_json_data}
use shared_state_async.Cli.Insert.{insert_members}

module _ {W Json Addr : Type 0} (host : Host W Json Addr) (local_instance_addr : Addr) where
  -- The state of a type, after a synchronization with the local daemon.
  unfoldable pub synced_state : Bytes → Io (SharedState Json × W) (StateSlice Json)
  synced_state type_name v = elim (lookup type_name v.0.m_states) [
    | none ↦ (fail unkown_data_type, v)
    | some t_state ↦
        (do
          sync_with_peer host type_name local_instance_addr
          λ u. (ok (elim (lookup type_name u.0.m_states) [ none ↦ t_state | some t ↦ t ]), u))
          v
  ]

  -- The members of the JSON object that the command prints.
  unfoldable pub dump : Bytes → Io (SharedState Json × W) (List (Bytes × StateEntry Json))
  dump type_name = synced_state type_name

  unfoldable pub get : Bytes → Io (SharedState Json × W) (List (Bytes × Json))
  get type_name = do t_state ← synced_state type_name; pure (clean_json_data t_state)

  -- The whole of `insert`, given the members of the object on the standard input.
  unfoldable pub insert_command : Bytes → List (Bytes × Json) → Io (SharedState Json × W) Bool
  insert_command type_name members =
      (λ v.
        let (r, s) = insert_members host.author_place_older type_name members v.0 in (r, (s, v.1)))
      >> sync_with_peer host type_name local_instance_addr

  -- The loop over the addresses, with the error of the last failure before it. A failure without an
  -- error sets it back.
  unfoldable pub sync_loop :
      Bytes → List Addr → Option Error → Io (SharedState Json × W) (Option Error)
  sync_loop data_type_name [] retval v = (ok retval, v)
  sync_loop data_type_name (peer_address ∷ rest) retval v =
      let (r, v') = sync_with_peer host data_type_name peer_address v in
      elim r [
        | ok true ↦ sync_loop data_type_name rest retval v'
        | ok false ↦ sync_loop data_type_name rest none v'
        | fail e ↦ sync_loop data_type_name rest (some e) v'
        | throw ↦ (throw, v')
        | crash ↦ (crash, v')
      ]

  -- The peers to synchronize with: those that are named, or what `getCandidatesNeighbours` gives
  -- where none is. A failure of it ends the process.
  unfoldable pub peers_or_candidates :
      Io W (List Addr) → List Addr → Io (SharedState Json × W) (List Addr)
  peers_or_candidates candidates [] v = ((candidates v.1).0, (v.0, (candidates v.1).1))
  peers_or_candidates candidates (peer ∷ peers) v = (ok (peer ∷ peers), v)

  -- The local daemon comes first, to give its state, and last, to take the changes.
  unfoldable pub sync_command :
      Bytes → Io W (List Addr) → List Addr → Io (SharedState Json × W) (Option Error)
  unfolding peers_or_candidates sync_loop
  sync_command data_type_name candidates p_peer_addresses =
      peers_or_candidates candidates p_peer_addresses >>= λ peers.
      sync_loop data_type_name (local_instance_addr ∷ (peers ++ (local_instance_addr ∷ []))) none

abbrev pub status : Result Bool → Result ℕ
status (ok b) = ok 0
status (fail e) = fail e
status throw = throw
status crash = crash

-- The constructor of `SharedStateCli` and `registerDataType` of the command line. The constructor
-- loads the types without an error pointer, so that a configuration file that cannot be read ends
-- the process there; so does a failure of the registration. What the registration returns is not
-- read, so the status is 0 otherwise. The second is what is written.
unfoldable pub register_command :
    {Json : Type 0}
    → Bytes
    → Bytes
    → ℤ
    → ℤ
    → Surroundings
    → SharedState Json
    → Result ℕ × Option (Map Bytes DataTypeConf)
register_command type_name type_scope update_interval ttl w s =
    let (loaded, s') = load_registered_types w.config s in
    let done = register_data_type type_name type_scope update_interval ttl w s' in
    elim loaded [
      | ok _ ↦ (status done.result, done.written)
      | fail e ↦ (fail e, none)
      | throw ↦ (throw, none)
      | crash ↦ (crash, none)
    ]
