-- ===== src/Tests/Channel.antt =====
-- Transfers over the pipe at concrete inputs.
use shared_state_async.Prelude.{
  ℕ, ◌+◌, ◌-◌, ◌/◌, ◌≤◌, ◌++◌, none, [], ◌≡◌, ◌≢◌, refl, arith, length, replicate, if◌then◌else◌,
  ltb, leb,
}
use shared_state_async.Errors.{ok, crash}
use shared_state_async.Wire.Endian.{little, be32}
use shared_state_async.Wire.Socket.{recv_loop}
use shared_state_async.Wire.Socket.Laws.{recv_loop_total}
use shared_state_async.Wire.Message.{Received, receive_bytes, send_bytes, bandwidth}
use shared_state_async.Wire.Message.Frame.{frame, frame_length}
use shared_state_async.Wire.Message.Frame.Receiving.{receive_frame, receive_cut}
use shared_state_async.Wire.Message.Frame.Sending.{acknowledged, send_frame}
use shared_state_async.Wire.Message.Bandwidth.{rate, bandwidth_lem}
use shared_state_async.Tests.Storage.{babel}
use shared_state_async.Tests.Pipe.{
  Pipe, pipe, pipe_stream, message, got, ready, cut, acknowledging, message-IsMessage, message-Fits,
}

recv_loop_total_example : recv_loop pipe 5 4 [] ready ≢ none
recv_loop_total_example = recv_loop_total pipe 5 4 [] ready (omega arith)

receive_frame_example :
    (w' : Pipe) × (r : Received) × (receive_bytes pipe little ready ≡ (ok r, w'))
    × (r.network_message ≡ message)
    × (r.total_received_bytes ≡ frame_length message)
    × (pipe_stream.inbox w' ≡ [])
    × (pipe_stream.outbox w' ≡ pipe_stream.outbox ready ++ be32 (frame_length message))
unfolding be32
receive_frame_example =
    receive_frame pipe pipe_stream little message [] ready message-IsMessage refl

receive_cut_example :
    (w' : Pipe) × (r : Received) × (receive_bytes pipe little cut ≡ (ok r, w'))
    × (r.network_message
        ≡ record { m_type_name = babel; m_data = got ++ replicate (20 - length got) 0 })
    × (r.total_received_bytes ≡ 1 + length babel + 4 + length got)
    × (pipe_stream.inbox w' ≡ [])
    × (pipe_stream.outbox w' ≡ pipe_stream.outbox cut ++ be32 (1 + length babel + 4 + length got))
unfolding be32
receive_cut_example =
    receive_cut pipe pipe_stream little babel got 20 [] cut (omega arith) (omega arith)
      (omega arith) (omega arith) (omega arith) (λ less. refl) refl

send_frame_example :
    (w' : Pipe) × (b : ℕ) × (e : ℕ) × (send_bytes pipe little message acknowledging
      ≡ (acknowledged message 20 b e, w'))
    × (pipe_stream.outbox w' ≡ pipe_stream.outbox acknowledging ++ frame message)
    × (pipe_stream.inbox w' ≡ [])
unfolding be32
send_frame_example =
    send_frame pipe pipe_stream little message 20 [] acknowledging message-Fits (omega arith) refl

bandwidth_lem_example :
    let us = (5000 - 0) / 1000 in
    (bandwidth 20 0 5000 3
      ≡ (if leb 5000 0 then ok 3 else if ltb (5000 - 0) 1000 then crash else ok (rate 20 us)))
    × (1 ≤ rate 20 us)
bandwidth_lem_example = bandwidth_lem 20 0 5000 3 (omega arith)
