-- ===== src/Cli/Accepting.antt =====
-- `SharedStateCli::acceptReqSyncConnectionsLoop` of app/shared_state_cli.cc. The loop waits for the
-- end of each connection before it accepts the next. `ListeningSocket::accept` and `getPeerAddr`
-- are given; both get no `errbub`, so that a failure ends the process.
pub mod Laws
use shared_state_async.Prelude.{ℕ, zero, suc, Bool}
use shared_state_async.Errors.{Result, ok, fail, throw, crash}
use shared_state_async.State.{SharedState}
use shared_state_async.Wire.Io.{Io, pure, ◌>>=◌, ◌>>◌}
use shared_state_async.EventLoop.Counting.{or_exit}
use shared_state_async.Sync.{Host, handle_req_sync_connection}

-- Neither the error nor the result of a connection is read.
abbrev pub noted : Result Bool → Result (Unit {0})
noted (ok b) = ok tt
noted (fail e) = ok tt
noted throw = throw
noted crash = crash

-- Accepting a socket, the address of its peer, and what a synchronization over it uses.
pub record Listener (W Json Addr Sock : Type 0) : Type 0 where
  pub accept : Io W Sock
  pub get_peer_addr : Sock → Io W Addr
  pub host : Sock → Host W Json Addr

module _ {W Json Addr Sock : Type 0} (listener : Listener W Json Addr Sock) where
  abbrev pub or_die : {A : Type 0} → Io W A → Io (SharedState Json × W) A
  or_die m v = (or_exit (m v.1).0, (v.0, (m v.1).1))

  abbrev pub handled : Sock → Addr → Io (SharedState Json × W) (Unit {0})
  handled socket peer v =
      let (r, v') = handle_req_sync_connection (listener.host socket) peer v in (noted r, v')

  abbrev pub accepted : Sock → Io (SharedState Json × W) (Unit {0})
  accepted socket = or_die (listener.get_peer_addr socket) >>= handled socket

  unfoldable pub accept_round : Io (SharedState Json × W) (Unit {0})
  accept_round = or_die listener.accept >>= accepted

  -- So many rounds of the endless loop.
  unfoldable pub accept_loop : ℕ → Io (SharedState Json × W) (Unit {0})
  unfolding accept_round
  accept_loop zero v = (ok tt, v)
  accept_loop (suc n) v = (accept_round >> accept_loop n) v
