-- ===== src/Wire/Message/Frame/Receiving.antt =====
-- What `receiveNetworkMessage` of src/sharedstate.cc reads, frames cut short and refused ones
-- included.
use mathlib.Core.List.{append_assoc, append-nil}
use shared_state_async.Prelude.{
  ℕ, zero, suc, ◌+◌, ◌-◌, ◌%◌, ◌^◌, ◌≤◌, ◌<◌, [], ◌∷◌, ◌++◌, length, drop, replicate, ◌≡◌, refl,
  arith, ap, ◌∙◌, sym,
}
use shared_state_async.Prelude.Bytes.{Bytes}
use shared_state_async.Errors.{ok}
use shared_state_async.State.Types.{data_type_name_max_lenght}
use shared_state_async.Wire.Endian.{Endian, be32, store32-htonl, length-be32}
use shared_state_async.Wire.Socket.{System, recv, send}
use shared_state_async.Wire.Socket.Laws.{IsStream}
use shared_state_async.Wire.Socket.Exact.{recv_exact, recv_upto, send_exact}
use shared_state_async.Wire.Io.{fail_if}
use shared_state_async.Wire.Message.{
  clock, data_max_lenght, NetworkMessage, overlay, Received, receive_bytes,
}
use shared_state_async.Wire.Message.Frame.{
  frame, frame_length, IsMessage, overlay_full, length-replicate, in_bounds, length_read,
}

drop-replicate : (k n : ℕ) → drop k (replicate {A = ℕ} n 0) ≡ replicate (n - k) 0
drop-replicate zero n = let e : n ≡ n - 0 = omega arith in ap (λ j. replicate {A = ℕ} j 0) e
drop-replicate (suc k) zero =
    let e : 0 ≡ 0 - suc k = omega arith in ap (λ j. replicate {A = ℕ} j 0) e
drop-replicate (suc k) (suc n) =
    let e : n - k ≡ suc n - suc k = omega arith in
    drop-replicate k n ∙ ap (λ j. replicate {A = ℕ} j 0) e

-- Nothing is missing of data that came whole.
padded :
    (m : NetworkMessage)
    → record {
      m_type_name = m.m_type_name;
      m_data = m.m_data ++ replicate (length m.m_data - length m.m_data) 0;
    }
      ≡ m
padded m =
    let e : length m.m_data - length m.m_data ≡ 0 = omega arith in rw (e, append-nil m.m_data) refl

-- The pieces of a message, one after another; of its data the peer may send less than it has
-- announced, and close.
receive_run :
    {W : Type 0} (sys : System W) (endian : Endian) (name got : Bytes) (n : ℕ)
    (w w₁ w₂ w₃ w₄ w₅ w₆ : W) (k : ℕ)
    → 1 ≤ length name
    → length name ≤ data_type_name_max_lenght
    → 2 ≤ n
    → n ≤ data_max_lenght
    → length got ≤ n
    → (sys.now w).1 ≡ w₁
    → recv sys 1 w₁ ≡ (ok (length name ∷ []), w₂)
    → recv sys (length name) w₂ ≡ (ok name, w₃)
    → recv sys 4 w₃ ≡ (ok (be32 n), w₄)
    → recv sys n w₄ ≡ (ok got, w₅)
    → send sys (be32 (1 + length name + 4 + length got)) (sys.now w₅).1 ≡ (ok k, w₆)
    → receive_bytes sys endian w ≡ (
      ok (record {
        network_message = record { m_type_name = name; m_data = overlay got (replicate n 0) };
        total_received_bytes = 1 + length name + 4 + length got;
        recv_btp = (sys.now w).0;
        recv_etp = (sys.now w₅).0;
      }),
      w₆,
    )
unfolding receive_bytes clock fail_if
receive_run sys endian name got n w w₁ w₂ w₃ w₄ w₅ w₆ k v₁ v₂ v₃ v₄ v₅ h₁ e₁ e₂ e₃ e₄ e₅ =
    let total = 1 + length name + 4 + length got in
    let fits : total % 2 ^ 32 ≡ total = ground (arith, v₂, v₄, v₅) in
    let whole =
      overlay_full name (replicate (length name) 0) (sym (length-replicate (length name))) in
    rw (h₁, e₁, in_bounds (length name) 1 data_type_name_max_lenght v₁ v₂, e₂)
      (rw (e₃, length_read endian n (omega (arith, v₄)), in_bounds n 2 data_max_lenght v₃ v₄, e₄)
        (rw (length-be32 n, fits, store32-htonl endian total, e₅, whole) refl))

module _ {W : Type 0} (sys : System W) (st : IsStream sys) (endian : Endian) where
  open st use {inbox, outbox, now_inbox, now_outbox}

  -- On a stream on which no call fails, a frame within the limits whose data may be cut short by
  -- the end of the stream: what is missing reads as zeros, the message is taken, and the peer gets
  -- the number of the bytes that came.
  pub receive_cut :
      (name got : Bytes) (n : ℕ) (rest : Bytes) (w : W)
      → 1 ≤ length name
      → length name ≤ data_type_name_max_lenght
      → 2 ≤ n
      → n ≤ data_max_lenght
      → length got ≤ n
      → (length got < n → rest ≡ [])
      → inbox w ≡ length name ∷ (name ++ (be32 n ++ (got ++ rest)))
      → (w' : W) × (r : Received) × (receive_bytes sys endian w ≡ (ok r, w'))
        × (r.network_message
            ≡ record { m_type_name = name; m_data = got ++ replicate (n - length got) 0 })
        × (r.total_received_bytes ≡ 1 + length name + 4 + length got)
        × (inbox w' ≡ rest)
        × (outbox w' ≡ outbox w ++ be32 (1 + length name + 4 + length got))
  receive_cut name got n rest w v₁ v₂ v₃ v₄ v₅ last h =
      let total = 1 + length name + 4 + length got in
      let (w₂, e₁, i₂, o₂) =
        recv_exact sys st 1 (length name ∷ []) (name ++ (be32 n ++ (got ++ rest))) (sys.now w).1
          refl (now_inbox w ∙ h) in
      let (w₃, e₂, i₃, o₃) =
        recv_exact sys st (length name) name (be32 n ++ (got ++ rest)) w₂ refl i₂ in
      let (w₄, e₃, i₄, o₄) = recv_exact sys st 4 (be32 n) (got ++ rest) w₃ (length-be32 n) i₃ in
      let (w₅, e₄, i₅, o₅) = recv_upto sys st n got rest w₄ v₅ last i₄ in
      let (w₆, e₅, o₆, i₆) = send_exact sys st (be32 total) (sys.now w₅).1 in
      (
        w₆,
        record {
          network_message = record { m_type_name = name; m_data = overlay got (replicate n 0) };
          total_received_bytes = total;
          recv_btp = (sys.now w).0;
          recv_etp = (sys.now w₅).0;
        },
        receive_run sys endian name got n w (sys.now w).1 w₂ w₃ w₄ w₅ w₆ (length (be32 total)) v₁ v₂
            v₃ v₄ v₅ refl e₁ e₂ e₃ e₄ e₅,
        ap (λ zs. record { m_type_name = name; m_data = got ++ zs })
            (drop-replicate (length got) n),
        refl,
        i₆ ∙ now_inbox w₅ ∙ i₅,
        o₆ ∙ ap (λ b. b ++ be32 total) (now_outbox w₅ ∙ o₅ ∙ o₄ ∙ o₃ ∙ o₂ ∙ now_outbox w),
      )

  -- On a stream on which no call fails, a frame within the limits at the head of the stream is
  -- read whole, whatever its pieces: the message comes back with the frame's length, the rest of
  -- the stream is left, and the frame's length goes to the peer in network byte order.
  pub receive_frame :
      (m : NetworkMessage) (rest : Bytes) (w : W)
      → IsMessage m
      → inbox w ≡ frame m ++ rest
      → (w' : W) × (r : Received) × (receive_bytes sys endian w ≡ (ok r, w'))
        × (r.network_message ≡ m)
        × (r.total_received_bytes ≡ frame_length m)
        × (inbox w' ≡ rest)
        × (outbox w' ≡ outbox w ++ be32 (frame_length m))
  receive_frame m rest w v h =
      let n = length m.m_data in
      let (w', r, e, same, total, i, o) =
        receive_cut m.m_type_name m.m_data n rest w v.named v.name_fits v.filled v.data_fits
          (omega arith) (λ less. absurd (omega (arith, less)))
          (h ∙ ap (◌∷◌ (length m.m_type_name)) (simp append_assoc)) in
      (w', r, e, same ∙ padded m, total, i, o)
