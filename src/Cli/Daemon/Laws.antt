-- ===== src/Cli/Daemon/Laws.antt =====
-- The storage of the daemon of app/shared_state_cli.cc, whatever its neighbours send.
use shared_state_async.Prelude.{ℕ, List, [], ◌∷◌, All, arith, inl, inr}
use shared_state_async.Prelude.Int.{ℤ}
use shared_state_async.Prelude.Bytes.{Bytes}
use shared_state_async.Errors.{Result, ok, fail, throw, crash, Result-cases}
use shared_state_async.State.{DataTypeConf, SharedState}
use shared_state_async.State.Types.{ConfigFile, load_registered_types}
use shared_state_async.State.Bleach.{bleach}
use shared_state_async.State.Invariant.{IsValid}
use shared_state_async.State.Invariant.Merging.{bleach-IsValid}
use shared_state_async.State.Invariant.Loading.{IsConfig, load_registered_types-IsValid}
use shared_state_async.Wire.Io.{Io}
use shared_state_async.Wire.Io.Preserves.{Preserves, Preserves-bind, Preserves-continue}
use shared_state_async.Sync.{Host, awaited, sync_with_peer}
use shared_state_async.Sync.Validity.{
  ReadsRange, KeepsValid, Holds, handle_req_sync_connection-Keeps, sync_with_peer-Keeps,
}
use shared_state_async.Cli.BleachLoop.{bleach_times, bleach_types, bleach_round}
use shared_state_async.Cli.Peer.{sync_peers, sync_types, sync_due, should_sync_types, peer_round}
use shared_state_async.Cli.Accepting.{Listener, or_die, handled, accept_round}
use shared_state_async.Cli.Daemon.{Turn, accepts, bleaches, synchronizes, turn, run}

-- A configuration file names each type once.
abbrev pub IsTurn : Turn → Type 0
IsTurn accepts = Unit
IsTurn (bleaches config elapsed) = IsConfig config
IsTurn (synchronizes config now) = IsConfig config

module _ {Json : Type 0} where
  bleach_types-IsValid :
      (conf : List (Bytes × DataTypeConf)) (times : ℤ) (s : SharedState Json)
      → IsValid s
      → IsValid (bleach_types conf times s).1
  unfolding bleach_types
  bleach_types-IsValid [] times s v = v
  bleach_types-IsValid ((name, c) ∷ conf) times s v = ground (
    arith,
    (bleach-IsValid name times s v).0,
    bleach_types-IsValid conf times (bleach name times s).1 (bleach-IsValid name times s v).0,
  )

  bleach_round-IsValid :
      (config : ConfigFile) (elapsed : ℕ) (s : SharedState Json)
      → IsConfig config
      → IsValid s
      → IsValid (bleach_round config elapsed s).1
  unfolding bleach_round
  bleach_round-IsValid config elapsed s c v =
      let loaded = (load_registered_types-IsValid config s c v).0 in
      let s' = (load_registered_types config s).1 in
      ground (arith, loaded, bleach_types-IsValid s'.m_type_conf (bleach_times elapsed) s' loaded)

module _ {W Json Addr : Type 0} (host : Host W Json Addr) (range : ReadsRange host)
    (valid : KeepsValid host) where
  sync_peers-Keeps :
      (name : Bytes) (peers : List Addr) (v : SharedState Json × W)
      → Holds v
      → Holds (sync_peers host name peers v).1
  unfolding sync_peers
  sync_peers-Keeps name [] v p = p
  sync_peers-Keeps name (peer ∷ peers) v p =
      let synced = (sync_with_peer-Keeps host range valid name peer).preserved v p in
      ground (arith, synced, sync_peers-Keeps name peers (sync_with_peer host name peer v).1 synced)

  sync_types-Keeps :
      (names : List Bytes) (peers : List Addr) (v : SharedState Json × W)
      → Holds v
      → Holds (sync_types host names peers v).1
  unfolding sync_types
  sync_types-Keeps [] peers v p = p
  sync_types-Keeps (name ∷ names) peers v p =
      let synced = sync_peers-Keeps name peers v p in
      ground (arith, synced, sync_types-Keeps names peers (sync_peers host name peers v).1 synced)

  sync_due-Keeps :
      (due : Result (List Bytes)) (candidates : Io W (List Addr)) (v : SharedState Json × W)
      → Holds v
      → Holds (sync_due host due candidates v).1
  sync_due-Keeps (ok []) candidates v p = p
  sync_due-Keeps (ok (name ∷ names)) candidates v p =
      let found = valid (candidates v.1).1 v.0 p in
      elim (Result-cases (candidates v.1).0) [
        | inl (peers, e) ↦
            rw (e, sync_due)
              (sync_types-Keeps (name ∷ names) peers (awaited host candidates v).1 found)
        | inr (inl (x, e)) ↦ rw (e, sync_due) found
        | inr (inr (inl e)) ↦ rw (e, sync_due) found
        | inr (inr (inr e)) ↦ rw (e, sync_due) found
      ]
  sync_due-Keeps (fail e) candidates v p = p
  sync_due-Keeps throw candidates v p = p
  sync_due-Keeps crash candidates v p = p

  peer_round-Keeps :
      (config : ConfigFile) (now : ℕ) (candidates : Io W (List Addr)) (v : SharedState Json × W)
      → IsConfig config
      → Holds v
      → Holds (peer_round host config now candidates v).1
  unfolding peer_round
  peer_round-Keeps config now candidates v c p =
      let loaded = (load_registered_types-IsValid config v.0 c p).0 in
      let s = (load_registered_types config v.0).1 in
      elim (Result-cases (load_registered_types config v.0).0) [
        | inl (b, e) ↦
            rw (e, peer_round)
              (sync_due-Keeps (should_sync_types now s.m_type_conf) candidates (s, v.1) loaded)
        | inr (inl (x, e)) ↦ rw (e, peer_round) loaded
        | inr (inr (inl e)) ↦ rw (e, peer_round) loaded
        | inr (inr (inr e)) ↦ rw (e, peer_round) loaded
      ]

module _ {W Json Addr Sock : Type 0} (listener : Listener W Json Addr Sock)
    (host : Host W Json Addr) (candidates : Io W (List Addr))
    (ranges : (socket : Sock) → ReadsRange (listener.host socket)) (range : ReadsRange host)
    (valids : (socket : Sock) → KeepsValid (listener.host socket)) (valid : KeepsValid host) where
  or_die-Keeps :
      {A : Type 0} (m : Io W A) → Preserves (Holds {W = W} {Json = Json}) (or_die listener m)
  or_die-Keeps m = record { preserved = λ v p. p }

  handled-Keeps : (socket : Sock) (peer : Addr) → Preserves Holds (handled listener socket peer)
  handled-Keeps socket peer = record {
    preserved =
        (handle_req_sync_connection-Keeps (listener.host socket) (ranges socket) (valids socket)
          peer).preserved;
  }

  accept_round-Keeps : Preserves Holds (accept_round listener)
  unfolding accept_round
  accept_round-Keeps = Preserves-bind Holds (or_die-Keeps listener.accept) λ socket.
      Preserves-bind Holds (or_die-Keeps (listener.get_peer_addr socket)) (handled-Keeps socket)

  turn-Keeps : (t : Turn) → IsTurn t → Preserves Holds (turn listener host candidates t)
  unfolding turn
  turn-Keeps accepts h = accept_round-Keeps
  turn-Keeps (bleaches config elapsed) h = record {
    preserved = λ v p. bleach_round-IsValid config elapsed v.0 h p;
  }
  turn-Keeps (synchronizes config now) h = record {
    preserved = λ v p. peer_round-Keeps host range valid config now candidates v h p;
  }

  -- Whatever the neighbours send, in every order of connections, bleachings and synchronizations,
  -- where the configuration files name each type once, what is read as a state has TTLs that are
  -- `int64_t` values, and what other coroutines do while a synchronization waits keeps the storage
  -- well-formed: the storage of the daemon stays well-formed, also where a round fails.
  pub run-IsValid :
      (ts : List Turn) (v : SharedState Json × W)
      → All IsTurn ts
      → IsValid v.0
      → IsValid (run listener host candidates ts v).1.0
  unfolding run
  run-IsValid [] v h p = p
  run-IsValid (t ∷ ts) v h p =
      let after = (turn-Keeps t h.0).preserved v p in
      (Preserves-continue Holds (turn listener host candidates t v).0
          (λ u. run listener host candidates ts)
          (λ u. record { preserved = λ w q. run-IsValid ts w h.1 q })).preserved
        (turn listener host candidates t v).1 after
