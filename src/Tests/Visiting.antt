-- ===== src/Tests/Visiting.antt =====
-- The daemon and its neighbours at concrete inputs.
use shared_state_async.Prelude.{ℕ, suc, true, if◌then◌else◌, ◌==◌, List, [], ◌∷◌, ◌≡◌, refl}
use shared_state_async.Prelude.Map.{lookup, insert, place, keep_if}
use shared_state_async.Prelude.Bytes.{bytes_eq, bytes_less}
use shared_state_async.Errors.{Result, ok, fail, errno}
use shared_state_async.Wire.Io.{fail_if}
use shared_state_async.Wire.Endian.{be32, store32, load32, htonl}
use shared_state_async.Wire.Socket.{recv, send, recv_loop, send_loop}
use shared_state_async.Wire.Message.{
  clock, send_bytes, receive_bytes, send_network_message, receive_network_message,
}
use shared_state_async.Wire.Handshake.{client_hand_shake}
use shared_state_async.State.Types.{load_registered_types, add_states}
use shared_state_async.State.Bleach.{bleach}
use shared_state_async.State.Invariant.Merging.{bleach-IsValid}
use shared_state_async.Prelude.Int.{pos}
use shared_state_async.Sync.{Host, sync_with_peer, client_session, closing, finish}
use shared_state_async.Cli.Peer.{is_due, should_sync_types, peer_round}
use shared_state_async.Cli.Attempts.{attempts, with_each, peer_round-attempts}
use shared_state_async.State.{SharedState}
use shared_state_async.State.Invariant.{IsValid}
use shared_state_async.Cli.Accepting.{Listener, accept_loop}
use shared_state_async.Cli.Accepting.Laws.{CountsAccepted, Returns, accept_loop_closes}
use shared_state_async.Cli.Daemon.{Turn, accepts, bleaches, synchronizes, run}
use shared_state_async.Cli.Daemon.Laws.{run-IsValid}
use shared_state_async.Tests.Storage.{
  babel, received-HasRange, storage, storage-IsValid, config, confs-IsMap,
}
use shared_state_async.Tests.Pipe.{Pipe, nothing}
use shared_state_async.Tests.Peer.{peer_host, peer_counts}

abbrev listener : Listener Pipe ℕ ℕ ℕ
listener = record {
  accept = λ w. (ok 1, record w { sockets = suc w.sockets });
  get_peer_addr = λ socket w. (ok 7, w);
  host = λ socket. peer_host;
}

abbrev counted : CountsAccepted listener
counted = record {
  counts = λ socket. peer_counts;
  open_sockets = λ w. w.sockets;
  same = λ socket w. refl;
  by_accept = λ socket w e. refl;
  by_peer_addr = λ socket n. record { preserved = λ w h. h };
}

abbrev before : SharedState ℕ × Pipe
before = (storage, nothing)

accept_loop_closes_example :
    Returns (λ (v : SharedState ℕ × Pipe). v.1.sockets ≡ 1) (accept_loop listener 3 before)
accept_loop_closes_example = accept_loop_closes listener counted 3 1 before refl

abbrev turns : List Turn
turns = accepts ∷ bleaches config 2_000_000_000 ∷ synchronizes config 60 ∷ accepts ∷ []

-- A peer that cannot be reached, and one that closes the connection without a word.
abbrev fickle : Host Pipe ℕ ℕ
fickle = record peer_host {
  connect = λ peer w. if peer == 5 then (fail errno, w) else peer_host.connect peer w;
}

abbrev found : Pipe → Result (List ℕ) × Pipe
found w = (ok (5 ∷ 6 ∷ []), w)

abbrev loaded : SharedState ℕ
loaded = (load_registered_types config storage).1

peer_round-attempts_example :
    peer_round fickle config 60 found before
    ≡ (ok tt, (attempts fickle (with_each (babel ∷ []) (5 ∷ 6 ∷ [])) (loaded, nothing)).1)
unfolding attempts with_each load_registered_types add_states keep_if lookup insert place bytes_eq
    bytes_less should_sync_types is_due sync_with_peer client_session client_hand_shake closing
    finish recv recv_loop send send_loop store32 load32 htonl be32 clock fail_if
    send_network_message send_bytes receive_network_message receive_bytes
peer_round-attempts_example =
    peer_round-attempts fickle config 60 found storage loaded nothing nothing true babel []
      (5 ∷ 6 ∷ []) refl refl refl (tt, (tt, tt))

-- Whenever a call waits, the states are bleached.
abbrev busy : Host Pipe ℕ ℕ
busy = record peer_host { meanwhile = λ w s. (bleach babel (pos 1) s).1 }

run-IsValid_example : IsValid (run listener busy found turns before).1.0
run-IsValid_example =
    run-IsValid listener busy found (λ socket bs. received-HasRange) (λ bs. received-HasRange)
      (λ socket w s v. v) (λ w s v. (bleach-IsValid babel (pos 1) s v).0) turns before
      (tt, (confs-IsMap, (confs-IsMap, (tt, tt)))) storage-IsValid
