-- ===== src/Cli/Daemon.antt =====
-- The daemon, `SharedStateCli::peer` of app/shared_state_cli.cc, as the rounds of its three loops
-- in any order: a connection of a neighbour, a round of bleaching, a round of synchronization. A
-- round is taken as a whole; what the other loops do to the storage where it suspends is in the
-- `meanwhile` of its host.
pub mod Laws
use shared_state_async.Prelude.{ℕ, Bool, List, [], ◌∷◌}
use shared_state_async.Errors.{Result, ok, fail, throw, crash}
use shared_state_async.State.{SharedState}
use shared_state_async.State.Types.{ConfigFile}
use shared_state_async.Wire.Io.{Io, ◌>>=◌, ◌>>◌}
use shared_state_async.Sync.{Host}
use shared_state_async.Cli.BleachLoop.{bleach_round}
use shared_state_async.Cli.Peer.{peer_round}
use shared_state_async.Cli.Accepting.{Listener, accept_round}

-- The configuration file that a round reads, the nanoseconds since the last bleach, and the time in
-- seconds.
pub data Turn : Type 0 where
  accepts : Turn
  bleaches : ConfigFile → ℕ → Turn
  synchronizes : ConfigFile → ℕ → Turn

-- `candidates` is `getCandidatesNeighbours`.
module _ {W Json Addr Sock : Type 0} (listener : Listener W Json Addr Sock)
    (host : Host W Json Addr) (candidates : Io W (List Addr)) where
  unfoldable pub turn : Turn → Io (SharedState Json × W) (Unit {0})
  turn accepts v = accept_round listener v
  turn (bleaches config elapsed) v = let (r, s) = bleach_round config elapsed v.0 in (r, (s, v.1))
  turn (synchronizes config now) v = peer_round host config now candidates v

  unfoldable pub run : List Turn → Io (SharedState Json × W) (Unit {0})
  unfolding turn
  run [] v = (ok tt, v)
  run (t ∷ ts) v = (turn t >> run ts) v
