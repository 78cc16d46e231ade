-- ===== src/Wire/Message/Frame.antt =====
-- The frame that src/sharedstate.cc puts on the wire for a `NetworkMessage`.
pub mod Receiving
pub mod Refusing
pub mod Sending
use mathlib.Core.List.{append_assoc, append-nil}
use shared_state_async.Prelude.{
  ℕ, zero, suc, ◌+◌, ◌-◌, ◌*◌, ◌/◌, ◌%◌, ◌^◌, ◌≤◌, ◌<◌, Bool, true, false, not, ◌||◌, [], ◌∷◌, ◌++◌,
  length, take, drop, replicate, ltb, ◌==◌, if◌then◌else◌, ◌≡◌, refl, arith, ap, ◌∙◌, sym, ◌⊎◌, inl,
  inr, Bool-cases, take-append, drop-append, length-append, nil_of_length, length-drop,
}
use shared_state_async.Prelude.Bytes.{Bytes}
use shared_state_async.Errors.{Result, ok, fail, Error, bad_message, message_size}
use shared_state_async.State.Types.{data_type_name_max_lenght}
use shared_state_async.Wire.Io.{Io}
use shared_state_async.Wire.Endian.{
  Endian, be32, store32, load32, htonl, ntohl, store32-htonl, ntohl-load32, length-be32,
}
use shared_state_async.Wire.Socket.{System, recv, send}
use shared_state_async.Wire.Socket.Laws.{IsStream}
use shared_state_async.Wire.Socket.Exact.{recv_exact, send_exact}
use shared_state_async.Wire.Message.{
  data_max_lenght, NetworkMessage, NetworkStats, overlay, Received, receive_bytes, send_bytes,
}

-- One byte with the length of the type name, the name, four bytes with the length of the data in
-- network byte order, the data.
abbrev pub frame : NetworkMessage → Bytes
frame m = length m.m_type_name ∷ (m.m_type_name ++ (be32 (length m.m_data) ++ m.m_data))

abbrev pub frame_length : NetworkMessage → ℕ
frame_length m = 1 + length m.m_type_name + 4 + length m.m_data

-- A message that `receiveNetworkMessage` takes.
pub record IsMessage (m : NetworkMessage) : Type 0 where
  pub named : 1 ≤ length m.m_type_name
  pub name_fits : length m.m_type_name ≤ data_type_name_max_lenght
  pub filled : 2 ≤ length m.m_data
  pub data_fits : length m.m_data ≤ data_max_lenght

pub overlay_full : (read memory : Bytes) → length read ≡ length memory → overlay read memory ≡ read
overlay_full read memory h =
    rw (nil_of_length (drop (length read) memory) (omega (arith, length-drop (length read) memory)))
      (append-nil read)

pub length-replicate : (n : ℕ) → length {A = ℕ} (replicate n 0) ≡ n
length-replicate zero = refl
length-replicate (suc n) = ap suc (length-replicate n)

-- The tests on a length that lies between two bounds.
pub in_bounds : (n lo hi : ℕ) → lo ≤ n → n ≤ hi → (ltb n lo || ltb hi n) ≡ false
in_bounds n lo hi h k = ground arith

-- The variable the length is read into, and what its conversion gives.
pub length_read :
    (endian : Endian) (n : ℕ)
    → n < 2 ^ 32
    → ntohl endian (load32 endian (overlay (be32 n) (0 ∷ 0 ∷ 0 ∷ 0 ∷ []))) ≡ n
length_read endian n h =
    rw (overlay_full (be32 n) (0 ∷ 0 ∷ 0 ∷ 0 ∷ []) (length-be32 n)) (ntohl-load32 endian n h)

-- A message whose lengths fit the fields of the frame, which `sendNetworkMessage` does not check.
pub record Fits (m : NetworkMessage) : Type 0 where
  pub name_fits : length m.m_type_name ≤ data_type_name_max_lenght
  pub data_fits : length m.m_data < 2 ^ 32
