-- ===== src/Wire/Message/Frame/Sending.antt =====
-- What `sendNetworkMessage` of src/sharedstate.cc writes, and which acknowledgement it takes.
use mathlib.Core.List.{append_assoc}
use shared_state_async.Prelude.{
  ℕ, ◌%◌, ◌^◌, ◌<◌, [], ◌∷◌, ◌++◌, length, take, ◌==◌, if◌then◌else◌, ◌≡◌, refl, arith, ap, ◌∙◌,
  inl, inr, Bool-cases,
}
use shared_state_async.Prelude.Bytes.{Bytes}
use shared_state_async.Errors.{Result, ok, fail, message_size}
use shared_state_async.Wire.Endian.{Endian, be32, store32-htonl, length-be32}
use shared_state_async.Wire.Socket.{System, recv, send}
use shared_state_async.Wire.Socket.Laws.{IsStream}
use shared_state_async.Wire.Socket.Exact.{recv_exact, send_exact}
use shared_state_async.Wire.Io.{fail_if}
use shared_state_async.Wire.Message.{clock, NetworkMessage, send_bytes}
use shared_state_async.Wire.Message.Frame.{frame, frame_length, Fits, length_read}

take_whole : (xs : Bytes) → take (length xs) xs ≡ xs
take_whole [] = refl
take_whole (x ∷ xs) = ap (◌∷◌ x) (take_whole xs)

abbrev pub acknowledged : NetworkMessage → ℕ → ℕ → ℕ → Result (ℕ × ℕ × ℕ)
acknowledged m ack b e =
    if ack == frame_length m then ok (frame_length m, b, e) else fail message_size

send_run :
    {W : Type 0} (sys : System W) (endian : Endian) (m : NetworkMessage) (w w₁ w₂ w₃ w₄ w₅ w₆ : W)
    (b e ack : ℕ)
    → Fits m
    → ack < 2 ^ 32
    → (sys.now w).0 ≡ b
    → (sys.now w).1 ≡ w₁
    → send sys (length m.m_type_name ∷ []) w₁ ≡ (ok 1, w₂)
    → send sys m.m_type_name w₂ ≡ (ok (length m.m_type_name), w₃)
    → send sys (be32 (length m.m_data)) w₃ ≡ (ok 4, w₄)
    → send sys m.m_data w₄ ≡ (ok (length m.m_data), w₅)
    → recv sys 4 w₅ ≡ (ok (be32 ack), w₆)
    → (sys.now w₆).0 ≡ e
    → send_bytes sys endian m w ≡ (acknowledged m ack b e, (sys.now w₆).1)
unfolding send_bytes clock fail_if
send_run sys endian m w w₁ w₂ w₃ w₄ w₅ w₆ b e ack v small hb h1 e₁ e₂ e₃ e₄ e₅ he =
    let one_byte : length m.m_type_name % 256 ≡ length m.m_type_name =
      ground (arith, v.name_fits) in
    let four_bytes : length m.m_data % 2 ^ 32 ≡ length m.m_data = ground (arith, v.data_fits) in
    rw (hb, h1, one_byte, e₁, take_whole m.m_type_name, e₂)
      (rw
        (
          four_bytes,
          store32-htonl endian (length m.m_data),
          e₃,
          e₄,
          e₅,
          length_read endian ack small,
          he,
        )
        (elim (Bool-cases (ack == frame_length m)) [ inl t ↦ rw t refl | inr f ↦ rw f refl ]))

-- The four parts of a frame, one after another.
frame_sent :
    (m : NetworkMessage) (o o₁ o₂ o₃ o₄ o₅ : Bytes)
    → o₁ ≡ o
    → o₂ ≡ o₁ ++ (length m.m_type_name ∷ [])
    → o₃ ≡ o₂ ++ m.m_type_name
    → o₄ ≡ o₃ ++ be32 (length m.m_data)
    → o₅ ≡ o₄ ++ m.m_data
    → o₅ ≡ o ++ frame m
frame_sent m o o₁ o₂ o₃ o₄ o₅ h₁ h₂ h₃ h₄ h₅ = rw (h₅, h₄, h₃, h₂, h₁) (simp append_assoc)

module _ {W : Type 0} (sys : System W) (st : IsStream sys) (endian : Endian) where
  open st use {inbox, outbox, now_inbox, now_outbox}

  -- On a stream on which no call fails, sending a message whose lengths fit the frame puts its
  -- frame on the wire, all of it and nothing else, and takes four bytes of acknowledgement: the
  -- call succeeds just if they are the frame's length in network byte order, and fails with
  -- `message_size` else.
  pub send_frame :
      (m : NetworkMessage) (ack : ℕ) (rest : Bytes) (w : W)
      → Fits m
      → ack < 2 ^ 32
      → inbox w ≡ be32 ack ++ rest
      → (w' : W) × (b : ℕ) × (e : ℕ) × (send_bytes sys endian m w ≡ (acknowledged m ack b e, w'))
        × (outbox w' ≡ outbox w ++ frame m)
        × (inbox w' ≡ rest)
  unfolding be32
  send_frame m ack rest w v small h =
      let name = m.m_type_name in
      let payload = m.m_data in
      let size = be32 (length payload) in
      let (w₂, e₁, o₂, i₂) = send_exact sys st (length name ∷ []) (sys.now w).1 in
      let (w₃, e₂, o₃, i₃) = send_exact sys st name w₂ in
      let (w₄, e₃, o₄, i₄) = send_exact sys st size w₃ in
      let (w₅, e₄, o₅, i₅) = send_exact sys st payload w₄ in
      let (w₆, e₅, i₆, o₆) =
        recv_exact sys st 4 (be32 ack) rest w₅ (length-be32 ack)
          (i₅ ∙ i₄ ∙ i₃ ∙ i₂ ∙ now_inbox w ∙ h) in
      (
        (sys.now w₆).1,
        (sys.now w).0,
        (sys.now w₆).0,
        send_run sys endian m w (sys.now w).1 w₂ w₃ w₄ w₅ w₆ (sys.now w).0 (sys.now w₆).0 ack v
            small refl refl e₁ e₂ e₃ e₄ e₅ refl,
        now_outbox w₆
            ∙ o₆
            ∙ frame_sent m (outbox w) (outbox (sys.now w).1) (outbox w₂) (outbox w₃) (outbox w₄)
                (outbox w₅) (now_outbox w) o₂ o₃ o₄ o₅,
        now_inbox w₆ ∙ i₆,
      )
