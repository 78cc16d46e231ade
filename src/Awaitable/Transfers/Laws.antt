-- ===== src/Awaitable/Transfers/Laws.antt =====
-- A descriptor of the event loop is a stream to the coroutine that awaits its operations.
use shared_state_async.Prelude.{
  ℕ, ◌≤◌, true, false, [], ◌++◌, length, take, drop, ◌≡◌, ◌⊎◌, inl, inr, refl, sym, ap, ◌∙◌, arith,
}
use shared_state_async.Prelude.Bytes.{Bytes}
use shared_state_async.Errors.{ok}
use shared_state_async.Wire.Socket.Laws.{IsStream, recv_lem, send_lem}
use shared_state_async.EventLoop.{
  IoContext, add_pending_op, change, watch_read, unwatch_read, watch_write, unwatch_write,
}
use shared_state_async.Awaitable.{Answer, value, again, error, should_wait, co_await}
use shared_state_async.Awaitable.Laws.{co_await-at_once, co_await-resumed}
use shared_state_async.Awaitable.Operations.{awaited_read, awaited_write}
use shared_state_async.Awaitable.Transfers.{
  Calls, given, plain, read_op, write_op, descriptor, async_read, async_write,
}

-- What a call that does not fail does: it moves something, or asks to wait.
abbrev pub Moves : {W A : Type 0} → (A → W → Type 0) → (W → Type 0) → Answer A × W → Type 0
Moves P Q (value x, w) = P x w
Moves P Q (again, w) = Q w
Moves P Q (error, w) = ⊥

abbrev Never : {W : Type 0} → W → Type 0
Never w = ⊥

module _ {W Op A : Type 0} (f : W → Answer A × W) (P : A → W → Type 0) (Q : W → Type 0)
    (meanwhile : IoContext W Op → IoContext W Op) (a : ℕ) (op : Op) (s : IoContext W Op) where
  abbrev resumed : W → IoContext W Op
  resumed w = meanwhile (add_pending_op a op (record s { kernel = w }))

  -- A call that has to wait once at most has moved something in the end.
  awaited :
      Moves P Q (f s.kernel)
      → ((w : W) → Q w → Moves P Never (f (resumed w).kernel))
      → let t = co_await (plain f) false meanwhile a op tt s in
        (x : A) × (t.0.m_return_value ≡ value x) × P x t.1.kernel
  unfolding should_wait
  awaited first second = go (f s.kernel) refl first
    where
      late :
          (w : W) (r : Answer A × W)
          → f s.kernel ≡ (again, w)
          → f (resumed w).kernel ≡ r
          → Moves P Never r
          → let t = co_await (plain f) false meanwhile a op tt s in
            (x : A) × (t.0.m_return_value ≡ value x) × P x t.1.kernel
      late w (value x, w') e e' p =
          rw
            (co_await-resumed (plain f) false meanwhile a op tt tt tt s w w' x (rw e refl)
              (rw e' refl))
            (x, refl, p)
      late w (again, w') e e' p = absurd p
      late w (error, w') e e' p = absurd p

      go :
          (r : Answer A × W)
          → f s.kernel ≡ r
          → Moves P Q r
          → let t = co_await (plain f) false meanwhile a op tt s in
            (x : A) × (t.0.m_return_value ≡ value x) × P x t.1.kernel
      go (value x, w) e p =
          rw (co_await-at_once (plain f) false meanwhile a op tt tt s (value x) w (rw e refl) refl)
            (x, refl, p)
      go (again, w) e q = late w (f (resumed w).kernel) e refl (second w q)
      go (error, w) e q = absurd q

-- What `recv`, `send`, `read` and `write` document of a connected descriptor on which no call fails:
-- `inbox` is what the other end sends before it closes, `outbox` what the system has taken. A call
-- that asks to wait has moved nothing.
pub record IsNonBlocking {W : Type 0} (calls : Calls W) : Type 0 where
  pub inbox : W → Bytes
  pub outbox : W → Bytes
  pub reads :
      (n : ℕ) (w : W)
      → Moves
          (λ chunk w'.
            (inbox w ≡ chunk ++ inbox w')
            × (length chunk ≤ n)
            × (length chunk ≡ 0 → (n ≡ 0) ⊎ (inbox w ≡ []))
            × (outbox w' ≡ outbox w))
          (λ w'. (inbox w' ≡ inbox w) × (outbox w' ≡ outbox w))
          (calls.read n w)
  pub writes :
      (buffer : Bytes) (w : W)
      → Moves
          (λ n w'.
            (outbox w' ≡ outbox w ++ take n buffer)
            × (n ≤ length buffer)
            × (n ≡ 0 → buffer ≡ [])
            × (inbox w' ≡ inbox w))
          (λ w'. (inbox w' ≡ inbox w) × (outbox w' ≡ outbox w))
          (calls.write buffer w)
  pub now_inbox : (w : W) → inbox (calls.now w).1 ≡ inbox w
  pub now_outbox : (w : W) → outbox (calls.now w).1 ≡ outbox w

-- What the event loop does until it resumes a coroutine that waits on the descriptor at this
-- address: it lets what passes through the descriptor alone, and it resumes a coroutine that wants
-- to read when there is something to read, and one that wants to write when there is room.
pub record IsWoken {W Op : Type 0} {calls : Calls W} (law : IsNonBlocking calls)
    (meanwhile : IoContext W Op → IoContext W Op) (a : ℕ) : Type 0 where
  pub keeps_inbox : (s : IoContext W Op) → law.inbox (meanwhile s).kernel ≡ law.inbox s.kernel
  pub keeps_outbox : (s : IoContext W Op) → law.outbox (meanwhile s).kernel ≡ law.outbox s.kernel
  pub readable :
      (n : ℕ) (s : IoContext W Op)
      → (s.objects a).m_next_io_state.epollin ≡ true
      → should_wait (calls.read n (meanwhile s).kernel).0 ≡ false
  pub writable :
      (buffer : Bytes) (s : IoContext W Op)
      → (s.objects a).m_next_io_state.epollout ≡ true
      → should_wait (calls.write buffer (meanwhile s).kernel).0 ≡ false

module _ {W A : Type 0} where
  -- A call that is known not to wait has moved something.
  moved :
      (P P' : A → W → Type 0) (Q : W → Type 0) (r : Answer A × W)
      → Moves P Q r
      → should_wait r.0 ≡ false
      → ((x : A) (w : W) → P x w → P' x w)
      → Moves P' Never r
  unfolding should_wait
  moved P P' Q (value x, w) m h f = f x w m
  moved P P' Q (again, w) m h f = absurd (cc)
  moved P P' Q (error, w) m h f = m

module _ {W Op : Type 0} (calls : Calls W) (meanwhile : IoContext W Op → IoContext W Op) (a : ℕ)
    (op : Op) (law : IsNonBlocking calls) (woken : IsWoken law meanwhile a) where
  open law use {inbox, outbox}

  abbrev Same : W → W → Type 0
  Same w w' = (inbox w' ≡ inbox w) × (outbox w' ≡ outbox w)

  abbrev Read : ℕ → W → Bytes → W → Type 0
  Read n w chunk w' =
      (inbox w ≡ chunk ++ inbox w')
      × (length chunk ≤ n)
      × (length chunk ≡ 0 → (n ≡ 0) ⊎ (inbox w ≡ []))
      × (outbox w' ≡ outbox w)

  abbrev Written : Bytes → W → ℕ → W → Type 0
  Written buffer w n w' =
      (outbox w' ≡ outbox w ++ take n buffer)
      × (n ≤ length buffer)
      × (n ≡ 0 → buffer ≡ [])
      × (inbox w' ≡ inbox w)

  woken-Same : (w : W) (s : IoContext W Op) → Same w s.kernel → Same w (meanwhile s).kernel
  woken-Same w s q = (woken.keeps_inbox s ∙ q.0, woken.keeps_outbox s ∙ q.1)

  Read-from :
      (n : ℕ) (w w' : W) (chunk : Bytes) (w₂ : W)
      → Same w w'
      → Read n w' chunk w₂
      → Read n w chunk w₂
  Read-from n w w' chunk w₂ q r = (
    sym q.0 ∙ r.0,
    r.1,
    λ z. elim (r.2 z) [ inl e ↦ inl e | inr e ↦ inr (sym q.0 ∙ e) ],
    r.3 ∙ q.1,
  )

  Written-from :
      (buffer : Bytes) (w w' : W) (n : ℕ) (w₂ : W)
      → Same w w'
      → Written buffer w' n w₂
      → Written buffer w n w₂
  Written-from buffer w w' n w₂ q r =
      (r.0 ∙ ap (λ (bs : Bytes). bs ++ take n buffer) q.1, r.1, r.2, r.3 ∙ q.0)

  read_op_lem :
      (n : ℕ) (s : IoContext W Op)
      → (chunk : Bytes) × ((read_op calls meanwhile a op n s).0 ≡ ok chunk)
        × Read n s.kernel chunk (read_op calls meanwhile a op n s).1.kernel
  unfolding read_op awaited_read watch_read unwatch_read change add_pending_op
  read_op_lem n s =
      let (chunk, e, p) =
        awaited (calls.read n) (Read n s.kernel) (Same s.kernel) meanwhile a op (watch_read a s)
          (law.reads n s.kernel)
          (λ w q.
            let u = add_pending_op a op (record (watch_read a s) { kernel = w }) in
            moved (Read n (meanwhile u).kernel) (Read n s.kernel) (Same (meanwhile u).kernel)
              (calls.read n (meanwhile u).kernel) (law.reads n (meanwhile u).kernel)
              (woken.readable n u (ground arith))
              λ x w₂ r.
                Read-from n s.kernel (meanwhile u).kernel x w₂ (woken-Same s.kernel u q) r) in
      (chunk, ap given e, p)

  write_op_lem :
      (buffer : Bytes) (s : IoContext W Op)
      → (n : ℕ) × ((write_op calls meanwhile a op buffer s).0 ≡ ok n)
        × Written buffer s.kernel n (write_op calls meanwhile a op buffer s).1.kernel
  unfolding write_op awaited_write watch_write unwatch_write change add_pending_op
  write_op_lem buffer s =
      let (n, e, p) =
        awaited (calls.write buffer) (Written buffer s.kernel) (Same s.kernel) meanwhile a op
          (watch_write a s) (law.writes buffer s.kernel)
          (λ w q.
            let u = add_pending_op a op (record (watch_write a s) { kernel = w }) in
            moved (Written buffer (meanwhile u).kernel) (Written buffer s.kernel)
              (Same (meanwhile u).kernel) (calls.write buffer (meanwhile u).kernel)
              (law.writes buffer (meanwhile u).kernel) (woken.writable buffer u (ground arith))
              λ x w₂ r.
                Written-from buffer s.kernel (meanwhile u).kernel x w₂ (woken-Same s.kernel u q)
                  r) in
      (n, ap given e, p)

  -- So the transfers and the synchronization run over the event loop.
  pub descriptor-IsStream : IsStream (descriptor calls meanwhile a op)
  descriptor-IsStream = record {
    inbox = λ s. inbox s.kernel;
    outbox = λ s. outbox s.kernel;
    reads = λ n s. let (c, e, p) = read_op_lem n s in (c, e, p.0, p.1, p.2, p.3);
    writes = λ b s. let (n, e, p) = write_op_lem b s in (n, e, p.0, p.1, p.2, p.3);
    now_inbox = λ s. law.now_inbox s.kernel;
    now_outbox = λ s. law.now_outbox s.kernel;
  }

  -- On a descriptor on which no call fails, where the event loop resumes a coroutine that wants to
  -- read when it can and leaves what passes through the descriptor alone: `asyncRead` gives exactly
  -- the next bytes, as many as asked for or as the other end sends before it closes, however often
  -- its calls have to wait, leaves the rest and writes nothing.
  pub async_read_lem :
      (len : ℕ) (s : IoContext W Op)
      → ((async_read calls meanwhile a op len s).0 ≡ ok (take len (inbox s.kernel)))
        × (inbox (async_read calls meanwhile a op len s).1.kernel ≡ drop len (inbox s.kernel))
        × (outbox (async_read calls meanwhile a op len s).1.kernel ≡ outbox s.kernel)
  unfolding async_read descriptor-IsStream
  async_read_lem len s = recv_lem (descriptor calls meanwhile a op) descriptor-IsStream len s

  -- Under the same laws, with a coroutine that wants to write: `asyncWrite` hands the whole buffer
  -- over, in order, however often its calls have to wait, and reads nothing.
  pub async_write_lem :
      (buffer : Bytes) (s : IoContext W Op)
      → ((async_write calls meanwhile a op buffer s).0 ≡ ok (length buffer))
        × (outbox (async_write calls meanwhile a op buffer s).1.kernel ≡ outbox s.kernel ++ buffer)
        × (inbox (async_write calls meanwhile a op buffer s).1.kernel ≡ inbox s.kernel)
  unfolding async_write descriptor-IsStream
  async_write_lem buffer s = send_lem (descriptor calls meanwhile a op) descriptor-IsStream buffer s
