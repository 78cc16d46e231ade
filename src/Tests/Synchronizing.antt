-- ===== src/Tests/Synchronizing.antt =====
-- Handshakes, synchronizations and statistics at concrete inputs.
use shared_state_async.Prelude.{ℕ, List, none, true, [], ◌∷◌, ◌≡◌}
use shared_state_async.Prelude.Map.{lookup}
use shared_state_async.Prelude.Bytes.{Bytes, bytes_eq, bytes_key}
use shared_state_async.Wire.Io.{fail_if}
use shared_state_async.Wire.Endian.{be32, store32, load32, htonl}
use shared_state_async.Wire.Socket.{recv, send, recv_loop, send_loop}
use shared_state_async.Wire.Message.{
  NetworkStats, clock, send_bytes, receive_bytes, send_network_message, receive_network_message,
}
use shared_state_async.Wire.Handshake.{client_hand_shake}
use shared_state_async.State.{SharedState}
use shared_state_async.Sync.{new_stats, sync_with_peer, client_session, closing}
use shared_state_async.Sync.Closing.{sync_with_peer_closes}
use shared_state_async.Stats.{read_stats, collect_stat}
use shared_state_async.Stats.Laws.{pushed, IsUpdate, collect_stat_lem}
use shared_state_async.Tests.Storage.{babel, storage}
use shared_state_async.Tests.Pipe.{Pipe, nothing}
use shared_state_async.Tests.Peer.{peer_host, peer_counts}

abbrev before : SharedState ℕ × Pipe
before = (storage, nothing)

abbrev measured : NetworkStats ℕ
measured = new_stats 7

abbrev latest : NetworkStats ℕ
latest = record measured { m_ts = 10_000 }

abbrev records : List (NetworkStats ℕ)
records = measured ∷ measured ∷ []

abbrev echo : Bytes
echo = 1 ∷ 0 ∷ 0 ∷ 0 ∷ []

abbrev same_address : ℕ → ℕ
same_address a = a

abbrev address : ℕ → Bytes
address a = a ∷ []

sync_with_peer_closes_example :
    peer_counts.open_sockets (sync_with_peer peer_host babel 7 before).1.1
    ≡ peer_counts.open_sockets before.1
unfolding sync_with_peer lookup bytes_eq client_session client_hand_shake closing recv recv_loop
    send send_loop store32 load32 htonl be32 clock fail_if send_network_message send_bytes
    receive_network_message receive_bytes
sync_with_peer_closes_example =
    sync_with_peer_closes peer_host peer_counts babel 7 before (λ e. cc e) (λ e. cc e)

collect_stat_lem_example :
    let stat : NetworkStats ℕ = record measured {
      m_peer = same_address measured.m_peer;
      m_ts = 10_000;
    } in
    let (r, file') = collect_stat same_address address 10_000 true true measured none in
    (r ≡ (none, stat))
    × ((k : Bytes)
        → IsUpdate true 10_000
            (lookup k (read_stats none))
            (pushed (bytes_eq (address stat.m_peer) k) stat (lookup k (read_stats none)))
            (lookup k (read_stats file')))
unfolding lookup
collect_stat_lem_example = collect_stat_lem same_address address 10_000 true measured none (λ k. tt)
