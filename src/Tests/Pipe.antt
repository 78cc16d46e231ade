-- ===== src/Tests/Pipe.antt =====
-- Test data: a stream that moves one byte per call, with a clock that advances five microseconds
-- at each reading.
use mathlib.Core.List.{append-nil}
use shared_state_async.Prelude.{
  ℕ, zero, suc, ◌+◌, ◌≤◌, ◌++◌, ◌⊎◌, inl, inr, [], ◌∷◌, ◌≡◌, refl, arith, length, take,
}
use shared_state_async.Prelude.Bytes.{Bytes, bytes}
use shared_state_async.Errors.{Result, ok}
use shared_state_async.Wire.Socket.{System}
use shared_state_async.Wire.Socket.Laws.{IsStream}
use shared_state_async.Wire.Message.{NetworkMessage}
use shared_state_async.Wire.Message.Frame.{frame, IsMessage, Fits}

pub record Pipe : Type 0 where
  pub coming : Bytes
  pub gone : Bytes
  pub time : ℕ
  pub sockets : ℕ

abbrev pub read_byte : ℕ → Bytes → Pipe → Result Bytes × Pipe
read_byte zero bs w = (ok [], w)
read_byte (suc n) [] w = (ok [], w)
read_byte (suc n) (b ∷ bs) w = (ok (b ∷ []), record w { coming = bs })

abbrev pub write_byte : Bytes → Pipe → Result ℕ × Pipe
write_byte [] w = (ok 0, w)
write_byte (b ∷ bs) w = (ok 1, record w { gone = w.gone ++ (b ∷ []) })

abbrev pub pipe : System Pipe
pipe = record {
  recv_operation = λ n w. read_byte n w.coming w;
  send_operation = write_byte;
  now = λ w. (w.time, record w { time = w.time + 5000 });
}

abbrev Reads : ℕ → Bytes → Pipe → Type 0
Reads n bs w =
    (chunk : Bytes) × ((read_byte n bs w).0 ≡ ok chunk)
    × (bs ≡ chunk ++ (read_byte n bs w).1.coming)
    × (length chunk ≤ n)
    × (length chunk ≡ 0 → (n ≡ 0) ⊎ (bs ≡ []))
    × ((read_byte n bs w).1.gone ≡ w.gone)

pub read_byte-Reads : (n : ℕ) (bs : Bytes) (w : Pipe) → w.coming ≡ bs → Reads n bs w
read_byte-Reads zero bs w e = ([], refl, rw e refl, omega arith, λ z. inl refl, refl)
read_byte-Reads (suc n) [] w e = ([], refl, rw e refl, omega arith, λ z. inr refl, refl)
read_byte-Reads (suc n) (b ∷ bs) w e =
    (b ∷ [], refl, refl, omega arith, λ z. absurd (omega (arith, z)), refl)

abbrev Writes : Bytes → Pipe → Type 0
Writes buffer w =
    (n : ℕ) × ((write_byte buffer w).0 ≡ ok n)
    × ((write_byte buffer w).1.gone ≡ w.gone ++ take n buffer)
    × (n ≤ length buffer)
    × (n ≡ 0 → buffer ≡ [])
    × ((write_byte buffer w).1.coming ≡ w.coming)

pub write_byte-Writes : (buffer : Bytes) (w : Pipe) → Writes buffer w
write_byte-Writes [] w = (0, refl, rw (append-nil w.gone) refl, omega arith, λ z. refl, refl)
write_byte-Writes (b ∷ bs) w = (1, refl, refl, omega arith, λ z. absurd (omega (arith, z)), refl)

abbrev pub pipe_stream : IsStream pipe
pipe_stream = record {
  inbox = λ w. w.coming;
  outbox = λ w. w.gone;
  reads = λ n w. read_byte-Reads n w.coming w refl;
  writes = write_byte-Writes;
  now_inbox = λ w. refl;
  now_outbox = λ w. refl;
}

-- A message of ten bytes for the type of five.
abbrev pub message : NetworkMessage
message = record { m_type_name = bytes "babel"; m_data = bytes "0123456789" }

abbrev pub got : Bytes
got = bytes "0123"

abbrev from : Bytes → Pipe
from bs = record { coming = bs; gone = []; time = 0; sockets = 1 }

abbrev pub ready : Pipe
ready = from (frame message)

-- The peer announces twenty bytes and closes after four.
abbrev pub cut : Pipe
cut = from (5 ∷ (bytes "babel" ++ (0 ∷ 0 ∷ 0 ∷ 20 ∷ got)))

abbrev pub acknowledging : Pipe
acknowledging = from (0 ∷ 0 ∷ 0 ∷ 20 ∷ [])

-- A version of 1, and the one that a client on a little-endian host sends after it.
abbrev pub announcing : Pipe
announcing = from (0 ∷ 0 ∷ 0 ∷ 1 ∷ 1 ∷ 0 ∷ 0 ∷ 0 ∷ [])

abbrev pub nothing : Pipe
nothing = from []

abbrev pub short : Pipe
short = from (5 ∷ (bytes "babel" ++ (0 ∷ 0 ∷ 0 ∷ 1 ∷ got)))

pub message-IsMessage : IsMessage message
message-IsMessage = record {
  named = omega arith;
  name_fits = omega arith;
  filled = omega arith;
  data_fits = omega arith;
}

pub message-Fits : Fits message
message-Fits = record { name_fits = omega arith; data_fits = omega arith }
