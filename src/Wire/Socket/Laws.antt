-- ===== src/Wire/Socket/Laws.antt =====
-- The transfer loops of src/async_socket.cc move whole buffers, however the kernel cuts them up.
use mathlib.Core.List.{append_assoc, append-nil}
use shared_state_async.Prelude.{
  ℕ, zero, suc, ◌+◌, ◌-◌, ◌≤◌, ◌<◌, false, ◌&&◌, not, none, some, [], ◌∷◌, ◌++◌, length, take, drop,
  ltb, ◌==◌, ◌≡◌, ◌≢◌, ◌⊎◌, inl, inr, refl, arith, Bool-cases, take-append_le, drop-append_le,
  take_nothing, ◌∙◌, length-drop, take-append-drop, ap,
}
use shared_state_async.Prelude.Bytes.{Bytes}
use shared_state_async.Errors.{ok, Result-cases}
use shared_state_async.Wire.Socket.{System, recv_loop, send_loop, recv, send}

module _ {W : Type 0} (sys : System W) where
  -- The loop of `recv` ends: whatever the system answers, a round more than there are bytes
  -- wanted is enough.
  pub recv_loop_total :
      (fuel wanted : ℕ) (read : Bytes) (w : W)
      → wanted < fuel
      → recv_loop sys fuel wanted read w ≢ none
  unfolding recv_loop
  recv_loop_total zero wanted read w h = absurd (omega arith)
  recv_loop_total (suc fuel) wanted read w h = elim (Result-cases (sys.recv_operation wanted w).0) [
    | inl (chunk, e) ↦
        rw (e, recv_loop)
          (ground (
            arith,
            recv_loop_total fuel (wanted - length chunk) (read ++ chunk)
                (sys.recv_operation wanted w).1,
          ))
    | inr (inl (x, e)) ↦ rw (e, recv_loop) (λ p. cc)
    | inr (inr (inl e)) ↦ rw (e, recv_loop) (λ p. cc)
    | inr (inr (inr e)) ↦ rw (e, recv_loop) (λ p. cc)
  ]

  -- The loop of `send` ends too: a round more than there are bytes in the buffer is enough, whatever
  -- the system answers.
  pub send_loop_total :
      (fuel : ℕ) (buffer : Bytes) (sent : ℕ) (w : W)
      → length buffer < fuel
      → send_loop sys fuel buffer sent w ≢ none
  unfolding send_loop
  send_loop_total zero buffer sent w h = absurd (omega arith)
  send_loop_total (suc fuel) buffer sent w h = elim (Result-cases (sys.send_operation buffer w).0) [
    | inl (n, e) ↦
        rw (e, send_loop)
          (ground (
            arith,
            length-drop n buffer,
            send_loop_total fuel (drop n buffer) (sent + n) (sys.send_operation buffer w).1,
          ))
    | inr (inl (x, e)) ↦ rw (e, send_loop) (λ p. cc)
    | inr (inr (inl e)) ↦ rw (e, send_loop) (λ p. cc)
    | inr (inr (inr e)) ↦ rw (e, send_loop) (λ p. cc)
  ]

-- A connected stream socket on which no call fails: `inbox` is what the peer sends before it
-- closes, `outbox` what the system has taken. A call moves some of the bytes, and none only if
-- none are wanted or none are left.
pub record IsStream {W : Type 0} (sys : System W) : Type 0 where
  pub inbox : W → Bytes
  pub outbox : W → Bytes
  pub reads :
      (n : ℕ) (w : W)
      → (chunk : Bytes) × ((sys.recv_operation n w).0 ≡ ok chunk)
        × (inbox w ≡ chunk ++ inbox (sys.recv_operation n w).1)
        × (length chunk ≤ n)
        × (length chunk ≡ 0 → (n ≡ 0) ⊎ (inbox w ≡ []))
        × (outbox (sys.recv_operation n w).1 ≡ outbox w)
  pub writes :
      (buffer : Bytes) (w : W)
      → (n : ℕ) × ((sys.send_operation buffer w).0 ≡ ok n)
        × (outbox (sys.send_operation buffer w).1 ≡ outbox w ++ take n buffer)
        × (n ≤ length buffer)
        × (n ≡ 0 → buffer ≡ [])
        × (inbox (sys.send_operation buffer w).1 ≡ inbox w)
  pub now_inbox : (w : W) → inbox (sys.now w).1 ≡ inbox w
  pub now_outbox : (w : W) → outbox (sys.now w).1 ≡ outbox w

-- Where the loop stops, nothing is wanted any more or nothing is left.
none_wanted :
    (wanted : ℕ) (chunk before after : Bytes)
    → before ≡ chunk ++ after
    → (length chunk ≡ 0 → (wanted ≡ 0) ⊎ (before ≡ []))
    → length chunk ≤ wanted
    → (not (length chunk == 0) && ltb (length chunk) wanted) ≡ false
    → (wanted - length chunk ≡ 0) ⊎ (after ≡ [])
none_wanted wanted [] before after split dry fits done = elim (dry refl) [
  | inl e ↦ inl (omega arith)
  | inr e ↦ inr (cc (split, e))
]
none_wanted wanted (b ∷ bs) before after split dry fits done = inl (ground arith)

sent_all :
    (n : ℕ) (buffer : Bytes)
    → (n ≡ 0 → buffer ≡ [])
    → n ≤ length buffer
    → (not (n == 0) && ltb n (length buffer)) ≡ false
    → n ≡ length buffer
sent_all zero buffer none_left fits done = rw (none_left refl) refl
sent_all (suc n) buffer none_left fits done = ground arith

take_all : (xs : Bytes) → take (length xs) xs ≡ xs
take_all [] = refl
take_all (x ∷ xs) = ap (◌∷◌ x) (take_all xs)

module _ {W : Type 0} (sys : System W) (st : IsStream sys) where
  open st use {inbox, outbox, reads, writes}

  recv_loop_lem :
      (fuel wanted : ℕ) (read : Bytes) (w : W)
      → wanted < fuel
      → (w' : W) × (recv_loop sys fuel wanted read w
          ≡ some (ok (read ++ take wanted (inbox w)), w'))
        × (inbox w' ≡ drop wanted (inbox w))
        × (outbox w' ≡ outbox w)
  unfolding recv_loop
  recv_loop_lem zero wanted read w h = absurd (omega arith)
  recv_loop_lem (suc fuel) wanted read w h =
      let (chunk, e, split, fits, dry, same) = reads wanted w in
      let w₁ = (sys.recv_operation wanted w).1 in
      elim (Bool-cases (not (length chunk == 0) && ltb (length chunk) wanted)) [
        | inl more ↦
            let (w', go, i, o) =
              recv_loop_lem fuel (wanted - length chunk) (read ++ chunk) w₁ (ground arith) in
            (
              w',
              rw
                  (
                    e,
                    recv_loop,
                    more,
                    go,
                    split,
                    take-append_le wanted chunk (inbox w₁) fits,
                    append_assoc,
                  )
                  refl,
              rw (i, split, drop-append_le wanted chunk (inbox w₁) fits) refl,
              o ∙ same,
            )
        | inr done ↦
            let (none_left, all_left) =
              take_nothing (wanted - length chunk) (inbox w₁)
                (none_wanted wanted chunk (inbox w) (inbox w₁) split dry fits done) in
            (
              w₁,
              rw
                  (
                    e,
                    recv_loop,
                    done,
                    split,
                    take-append_le wanted chunk (inbox w₁) fits,
                    none_left,
                    append-nil,
                  )
                  refl,
              rw (split, drop-append_le wanted chunk (inbox w₁) fits, all_left) refl,
              same,
            )
      ]

  -- On a stream on which no call fails, `recv` gives exactly the next bytes, as many as asked for
  -- or as the peer has sent, leaves the rest and sends nothing.
  pub recv_lem :
      (len : ℕ) (w : W)
      → ((recv sys len w).0 ≡ ok (take len (inbox w)))
        × (inbox (recv sys len w).1 ≡ drop len (inbox w))
        × (outbox (recv sys len w).1 ≡ outbox w)
  unfolding recv
  recv_lem len w =
      let (w', e, i, o) = recv_loop_lem (suc len) len [] w (omega arith) in rw e (refl, i, o)

  send_loop_lem :
      (fuel : ℕ) (buffer : Bytes) (sent : ℕ) (w : W)
      → length buffer < fuel
      → (w' : W) × (send_loop sys fuel buffer sent w ≡ some (ok (sent + length buffer), w'))
        × (outbox w' ≡ outbox w ++ buffer)
        × (inbox w' ≡ inbox w)
  unfolding send_loop
  send_loop_lem zero buffer sent w h = absurd (omega arith)
  send_loop_lem (suc fuel) buffer sent w h =
      let (n, e, taken, fits, none_left, same) = writes buffer w in
      let w₁ = (sys.send_operation buffer w).1 in
      elim (Bool-cases (not (n == 0) && ltb n (length buffer))) [
        | inl more ↦
            let (w', go, o, i) =
              send_loop_lem fuel (drop n buffer) (sent + n) w₁
                (ground (arith, length-drop n buffer)) in
            let count : sent + n + length (drop n buffer) ≡ sent + length buffer =
              omega (arith, length-drop n buffer) in
            (
              w',
              rw (e, send_loop, more, go, count) refl,
              rw (o, taken, append_assoc, take-append-drop n buffer) refl,
              i ∙ same,
            )
        | inr done ↦
            let all : n ≡ length buffer = sent_all n buffer none_left fits done in
            (w₁, rw (e, send_loop, done, all) refl, rw (taken, all, take_all buffer) refl, same)
      ]

  -- On a stream on which no call fails, `send` hands the whole buffer over, in order, and reads
  -- nothing.
  pub send_lem :
      (buffer : Bytes) (w : W)
      → ((send sys buffer w).0 ≡ ok (length buffer))
        × (outbox (send sys buffer w).1 ≡ outbox w ++ buffer)
        × (inbox (send sys buffer w).1 ≡ inbox w)
  unfolding send
  send_lem buffer w =
      let (w', e, o, i) = send_loop_lem (suc (length buffer)) buffer 0 w (omega arith) in
      rw e (ap ok (omega arith), o, i)
