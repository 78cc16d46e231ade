-- ===== src/Wire/Message/Frame/Refusing.antt =====
-- What `receiveNetworkMessage` of src/sharedstate.cc does with a length out of its bounds.
use shared_state_async.Prelude.{
  ℕ, ◌^◌, ◌≤◌, ◌<◌, true, ◌||◌, [], ◌∷◌, ◌++◌, length, take, drop, ltb, ◌≡◌, refl, arith, ap, ◌∙◌,
  ◌⊎◌,
}
use shared_state_async.Prelude.Bytes.{Bytes}
use shared_state_async.Errors.{ok, fail, bad_message}
use shared_state_async.State.Types.{data_type_name_max_lenght}
use shared_state_async.Wire.Endian.{Endian, be32, length-be32}
use shared_state_async.Wire.Socket.{System, recv}
use shared_state_async.Wire.Socket.Laws.{IsStream, recv_lem}
use shared_state_async.Wire.Socket.Exact.{recv_exact}
use shared_state_async.Wire.Io.{fail_if}
use shared_state_async.Wire.Message.{clock, data_max_lenght, overlay, first_byte, receive_bytes}
use shared_state_async.Wire.Message.Frame.{in_bounds, length_read}

-- The tests on a length that lies below or above its bounds.
out_of_bounds : (n lo hi : ℕ) → (n < lo) ⊎ (hi < n) → (ltb n lo || ltb hi n) ≡ true
out_of_bounds n lo hi h = ground arith

first_byte_read : (bs : Bytes) → first_byte (overlay (take 1 bs) (0 ∷ [])) ≡ first_byte bs
first_byte_read [] = refl
first_byte_read (b ∷ bs) = refl

refuse_name :
    {W : Type 0} (sys : System W) (endian : Endian) (w w₁ w₂ : W) (read : Bytes)
    → (sys.now w).1 ≡ w₁
    → recv sys 1 w₁ ≡ (ok read, w₂)
    → (first_byte (overlay read (0 ∷ [])) < 1)
      ⊎ (data_type_name_max_lenght < first_byte (overlay read (0 ∷ [])))
    → receive_bytes sys endian w ≡ (fail bad_message, w₂)
unfolding receive_bytes clock fail_if
refuse_name sys endian w w₁ w₂ read h e bad =
    rw (h, e, out_of_bounds (first_byte (overlay read (0 ∷ []))) 1 data_type_name_max_lenght bad)
      refl

refuse_data :
    {W : Type 0} (sys : System W) (endian : Endian) (name : Bytes) (n : ℕ) (w w₁ w₂ w₃ w₄ : W)
    → 1 ≤ length name
    → length name ≤ data_type_name_max_lenght
    → n < 2 ^ 32
    → (n < 2) ⊎ (data_max_lenght < n)
    → (sys.now w).1 ≡ w₁
    → recv sys 1 w₁ ≡ (ok (length name ∷ []), w₂)
    → recv sys (length name) w₂ ≡ (ok name, w₃)
    → recv sys 4 w₃ ≡ (ok (be32 n), w₄)
    → receive_bytes sys endian w ≡ (fail bad_message, w₄)
unfolding receive_bytes clock fail_if
refuse_data sys endian name n w w₁ w₂ w₃ w₄ v₁ v₂ small bad h e₁ e₂ e₃ =
    rw (h, e₁, in_bounds (length name) 1 data_type_name_max_lenght v₁ v₂, e₂)
      (rw (e₃, length_read endian n small, out_of_bounds n 2 data_max_lenght bad) refl)

module _ {W : Type 0} (sys : System W) (st : IsStream sys) (endian : Endian) where
  open st use {inbox, outbox, now_inbox, now_outbox}

  -- On a stream on which no call fails, one that is closed at once, or starts with a name length
  -- of 0 or over the limit, is refused after that byte with `bad_message`, and nothing is sent.
  pub receive_bad_name :
      (w : W)
      → (first_byte (inbox w) < 1) ⊎ (data_type_name_max_lenght < first_byte (inbox w))
      → (w' : W) × (receive_bytes sys endian w ≡ (fail bad_message, w'))
        × (inbox w' ≡ drop 1 (inbox w))
        × (outbox w' ≡ outbox w)
  receive_bad_name w bad =
      let w₁ = (sys.now w).1 in
      let (r, i, o) = recv_lem sys st 1 w₁ in
      let read : first_byte (overlay (take 1 (inbox w₁)) (0 ∷ [])) ≡ first_byte (inbox w) =
        first_byte_read (inbox w₁) ∙ ap first_byte (now_inbox w) in
      (
        (recv sys 1 w₁).1,
        refuse_name sys endian w w₁ (recv sys 1 w₁).1 (take 1 (inbox w₁)) refl
            (λ k. (r k, (recv sys 1 w₁).1)) (rw read bad),
        i ∙ ap (drop 1) (now_inbox w),
        o ∙ now_outbox w,
      )

  -- On a stream on which no call fails, after a type name within its limits, a data length below 2
  -- or over the limit is refused with `bad_message` when it has been read: the data is left in the
  -- stream and nothing is sent.
  pub receive_bad_data :
      (name : Bytes) (n : ℕ) (rest : Bytes) (w : W)
      → 1 ≤ length name
      → length name ≤ data_type_name_max_lenght
      → n < 2 ^ 32
      → (n < 2) ⊎ (data_max_lenght < n)
      → inbox w ≡ length name ∷ (name ++ (be32 n ++ rest))
      → (w' : W) × (receive_bytes sys endian w ≡ (fail bad_message, w'))
        × (inbox w' ≡ rest)
        × (outbox w' ≡ outbox w)
  receive_bad_data name n rest w v₁ v₂ small bad h =
      let (w₂, e₁, i₂, o₂) =
        recv_exact sys st 1 (length name ∷ []) (name ++ (be32 n ++ rest)) (sys.now w).1 refl
          (now_inbox w ∙ h) in
      let (w₃, e₂, i₃, o₃) = recv_exact sys st (length name) name (be32 n ++ rest) w₂ refl i₂ in
      let (w₄, e₃, i₄, o₄) = recv_exact sys st 4 (be32 n) rest w₃ (length-be32 n) i₃ in
      (
        w₄,
        refuse_data sys endian name n w (sys.now w).1 w₂ w₃ w₄ v₁ v₂ small bad refl e₁ e₂ e₃,
        i₄,
        o₄ ∙ o₃ ∙ o₂ ∙ now_outbox w,
      )
