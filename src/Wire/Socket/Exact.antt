-- ===== src/Wire/Socket/Exact.antt =====
-- The transfers of src/async_socket.cc of a known number of bytes.
use shared_state_async.Prelude.{
  ℕ, zero, suc, ◌≤◌, ◌<◌, [], ◌∷◌, ◌++◌, length, take, drop, ◌≡◌, refl, arith, ◌∙◌, ap, take-append,
  drop-append,
}
use shared_state_async.Prelude.Bytes.{Bytes}
use shared_state_async.Errors.{ok}
use shared_state_async.Wire.Socket.{System, recv, send}
use shared_state_async.Wire.Socket.Laws.{IsStream, recv_lem, send_lem}

taken_upto :
    (n : ℕ) (got rest : Bytes)
    → length got ≤ n
    → (length got < n → rest ≡ [])
    → (take n (got ++ rest) ≡ got) × (drop n (got ++ rest) ≡ rest)
taken_upto zero [] rest fits last = (refl, refl)
taken_upto (suc n) [] rest fits last = rw (last (omega arith)) (refl, refl)
taken_upto zero (b ∷ bs) rest fits last = absurd (omega arith)
taken_upto (suc n) (b ∷ bs) rest fits last =
    let (front, back) = taken_upto n bs rest (omega arith) (λ less. last (omega arith)) in
    (ap (◌∷◌ b) front, back)

module _ {W : Type 0} (sys : System W) (st : IsStream sys) where
  open st use {inbox, outbox}

  -- `recv` of bytes that head the stream.
  pub recv_exact :
      (n : ℕ) (bs rest : Bytes) (w : W)
      → length bs ≡ n
      → inbox w ≡ bs ++ rest
      → (w' : W) × (recv sys n w ≡ (ok bs, w')) × (inbox w' ≡ rest) × (outbox w' ≡ outbox w)
  recv_exact n bs rest w e h =
      let (r, i, o) = recv_lem sys st n w in
      let head : take n (inbox w) ≡ bs = rw (h, ← e) (take-append bs rest) in
      let tail : drop n (inbox w) ≡ rest = rw (h, ← e) (drop-append bs rest) in
      ((recv sys n w).1, λ k. ((r ∙ ap ok head) k, (recv sys n w).1), i ∙ tail, o)

  pub send_exact :
      (buffer : Bytes) (w : W)
      → (w' : W) × (send sys buffer w ≡ (ok (length buffer), w'))
        × (outbox w' ≡ outbox w ++ buffer)
        × (inbox w' ≡ inbox w)
  send_exact buffer w =
      let (r, o, i) = send_lem sys st buffer w in
      ((send sys buffer w).1, λ k. (r k, (send sys buffer w).1), o, i)

-- `recv` of more than the stream still holds gives what there is.
pub recv_upto :
    {W : Type 0} (sys : System W) (st : IsStream sys) (n : ℕ) (got rest : Bytes) (w : W)
    → length got ≤ n
    → (length got < n → rest ≡ [])
    → st.inbox w ≡ got ++ rest
    → (w' : W) × (recv sys n w ≡ (ok got, w')) × (st.inbox w' ≡ rest) × (st.outbox w' ≡ st.outbox w)
recv_upto sys st n got rest w fits last h =
    let (r, i, o) = recv_lem sys st n w in
    let (front, back) = taken_upto n got rest fits last in
    (
      (recv sys n w).1,
      λ k. ((r ∙ ap ok (ap (take n) h ∙ front)) k, (recv sys n w).1),
      i ∙ ap (drop n) h ∙ back,
      o,
    )
