-- ===== src/Command/Closing.antt =====
-- The end of an `AsyncCommand` of src/async_command.cc: waiting for the process, and closing.
use shared_state_async.Prelude.{
  ℕ, suc, Bool, true, false, Option, none, some, [], ◌∷◌, ◌++◌, ◌≡◌, refl, ap, arith, Option-cases,
  inl, inr,
}
use shared_state_async.Prelude.Map.{nat_key}
use shared_state_async.Errors.{Result, ok, fail, throw, crash, state_not_recoverable}
use shared_state_async.Wire.Io.{Io, continue, ◌>>=◌}
use shared_state_async.EventLoop.{
  IoContext, Kernel, close_afd, forget, queue, change, add_pending_op, watch_read, unwatch_read,
}
use shared_state_async.Awaitable.{should_wait, co_await}
use shared_state_async.Awaitable.Operations.{awaited_read, waitpid_syscall}
use shared_state_async.Command.{
  Processes, AsyncCommand, close_std_in, close_std_out, close_process, close_output, close_command,
  and_then, if_set, after_wait, wait_termination,
}

-- `~AsyncFileDescriptor`; a failure ends the process.
unfoldable pub destroy_afd : Option ℕ → Result (Unit {0})
destroy_afd none = ok tt
destroy_afd (some fd) = fail state_not_recoverable

module _ {W Op : Type 0} (k : Kernel W) where
  -- A descriptor that is closed with success is -1 in its object.
  close_afd-closed :
      (a : ℕ) (s : IoContext W Op)
      → (close_afd k (some a) s).0 ≡ ok true
      → ((close_afd k (some a) s).1.objects a).m_fd ≡ none
  unfolding close_afd forget
  close_afd-closed a s h = ground arith

  -- What the destructors of the command check.
  pub record IsClosed (v : AsyncCommand × IoContext W Op) : Type 0 where
    pub no_process : v.0.m_process_id ≡ none
    pub no_std_in : v.0.m_std_in ≡ none
    pub no_std_out : v.0.m_std_out ≡ none
    pub no_descriptor : (v.1.objects v.0.afd).m_fd ≡ none

  -- `~AsyncCommand`, and the destructor of its base class.
  unfoldable pub destroy_command : AsyncCommand × IoContext W Op → Result (Unit {0})
  unfolding destroy_afd
  destroy_command v = elim v.0.m_process_id [
    | none ↦ destroy_afd (v.1.objects v.0.afd).m_fd
    | some pid ↦ fail state_not_recoverable
  ]

  pub IsClosed-destroy_command :
      (v : AsyncCommand × IoContext W Op) → IsClosed v → destroy_command v ≡ ok tt
  unfolding destroy_command
  IsClosed-destroy_command v h = ground arith

  -- An object whose descriptor is closed stays so when another is closed.
  close_afd-Gone :
      (b : ℕ) (p : Option ℕ) (s : IoContext W Op)
      → (s.objects b).m_fd ≡ none
      → ((close_afd k p s).1.objects b).m_fd ≡ none
  unfolding close_afd forget
  close_afd-Gone b none s h = h
  close_afd-Gone b (some a) s h = ground (arith, h)

  -- What a sequence that ends with success has done.
  both :
      (r : Result Bool) (m : Io (AsyncCommand × IoContext W Op) Bool)
      (v : AsyncCommand × IoContext W Op)
      → (continue r (and_then m) v).0 ≡ ok true
      → (r ≡ ok true) × ((m v).0 ≡ ok true) × (continue r (and_then m) v ≡ m v)
  both (ok true) m v h = (refl, h, refl)
  both (ok false) m v h = absurd (cc)
  both (fail e) m v h = absurd (cc)
  both throw m v h = absurd (cc)
  both crash m v h = absurd (cc)

  chosen :
      (m n : Io (AsyncCommand × IoContext W Op) Bool) (v : AsyncCommand × IoContext W Op)
      {o o' : Option ℕ}
      → o ≡ o'
      → (if_set o m >>= and_then n) v ≡ (if_set o' m >>= and_then n) v
  chosen m n v e = ap (λ (o : Option ℕ). (if_set o m >>= and_then n) v) e

  close_process-IsClosed :
      (v : AsyncCommand × IoContext W Op)
      → v.0.m_std_in ≡ none
      → v.0.m_std_out ≡ none
      → (close_process k v).0 ≡ ok true
      → IsClosed (close_process k v).1
  unfolding close_process
  close_process-IsClosed v i o h = record {
    no_process = refl;
    no_std_in = i;
    no_std_out = o;
    no_descriptor = close_afd-closed v.0.afd v.1 h;
  }

  close_output-IsClosed :
      (v : AsyncCommand × IoContext W Op)
      → v.0.m_std_in ≡ none
      → (close_output k v).0 ≡ ok true
      → IsClosed (close_output k v).1
  unfolding close_output close_std_out
  close_output-IsClosed v i = elim (Option-cases v.0.m_std_out) [
    | inl e ↦ rw (chosen (close_std_out k) (close_process k) v e) (close_process-IsClosed v i e)
    | inr (b, e) ↦ rw (chosen (close_std_out k) (close_process k) v e) (λ h.
        let (closed, rest, same) =
          both (close_std_out k v).0 (close_process k) (close_std_out k v).1 h in
        rw same (
          close_process-IsClosed (close_std_out k v).1 (ground (arith, i)) (ground (arith, closed))
            rest))
  ]

  abbrev pub Gone : ℕ → AsyncCommand × IoContext W Op → Type 0
  Gone b v = (v.1.objects b).m_fd ≡ none

  abbrev KeepsGone : ℕ → Io (AsyncCommand × IoContext W Op) Bool → Type 0
  KeepsGone b m = (v : AsyncCommand × IoContext W Op) → Gone b v → Gone b (m v).1

  continue-Gone :
      (b : ℕ) (r : Result Bool) (n : Io (AsyncCommand × IoContext W Op) Bool)
      (v : AsyncCommand × IoContext W Op)
      → KeepsGone b n
      → Gone b v
      → Gone b (continue r (and_then n) v).1
  continue-Gone b (ok true) n v hn h = hn v h
  continue-Gone b (ok false) n v hn h = h
  continue-Gone b (fail e) n v hn h = h
  continue-Gone b throw n v hn h = h
  continue-Gone b crash n v hn h = h

  close_process-Gone : (b : ℕ) → KeepsGone b (close_process k)
  unfolding close_process
  close_process-Gone b v h = close_afd-Gone b (some v.0.afd) v.1 h

  close_std_out-Gone : (b : ℕ) → KeepsGone b (close_std_out k)
  unfolding close_std_out
  close_std_out-Gone b v h = close_afd-Gone b v.0.m_std_out v.1 h

  sequence-Gone :
      (b : ℕ) (o : Option ℕ) (m n : Io (AsyncCommand × IoContext W Op) Bool)
      → KeepsGone b m
      → KeepsGone b n
      → KeepsGone b (if_set o m >>= and_then n)
  sequence-Gone b none m n hm hn v h = hn v h
  sequence-Gone b (some a) m n hm hn v h = continue-Gone b (m v).0 n (m v).1 hn (hm v h)

  close_output-Gone : (b : ℕ) → KeepsGone b (close_output k)
  unfolding close_output
  close_output-Gone b v h =
      sequence-Gone b v.0.m_std_out (close_std_out k) (close_process k) (close_std_out-Gone b)
        (close_process-Gone b) v h

  -- A descriptor that is closed first, with what follows it.
  first-Gone :
      (b : ℕ) (o : Option ℕ) (m n : Io (AsyncCommand × IoContext W Op) Bool)
      (v : AsyncCommand × IoContext W Op)
      → o ≡ some b
      → ((m v).0 ≡ ok true → Gone b (m v).1)
      → KeepsGone b n
      → ((if_set o m >>= and_then n) v).0 ≡ ok true
      → Gone b ((if_set o m >>= and_then n) v).1
  first-Gone b o m n v e hm hn = rw (chosen m n v e) (λ h.
      let closed = both (m v).0 n (m v).1 h in continue-Gone b (m v).0 n (m v).1 hn (hm closed.0))

  close_output-closed :
      (b : ℕ) (v : AsyncCommand × IoContext W Op)
      → v.0.m_std_out ≡ some b
      → (close_output k v).0 ≡ ok true
      → Gone b (close_output k v).1
  unfolding close_output close_std_out
  close_output-closed b v e =
      first-Gone b v.0.m_std_out (close_std_out k) (close_process k) v e
        (rw e (close_afd-closed b v.1)) (close_process-Gone b)

  input-closed :
      (b : ℕ) (v : AsyncCommand × IoContext W Op)
      → v.0.m_std_in ≡ some b
      → (close_command k v).0 ≡ ok true
      → Gone b (close_command k v).1
  unfolding close_command close_std_in
  input-closed b v e =
      first-Gone b v.0.m_std_in (close_std_in k) (close_output k) v e
        (rw e (close_afd-closed b v.1)) (close_output-Gone b)

  output-closed :
      (b : ℕ) (v : AsyncCommand × IoContext W Op)
      → v.0.m_std_out ≡ some b
      → (close_command k v).0 ≡ ok true
      → Gone b (close_command k v).1
  unfolding close_command close_std_in
  output-closed b v e = elim (Option-cases v.0.m_std_in) [
    | inl i ↦ rw (chosen (close_std_in k) (close_output k) v i) (close_output-closed b v e)
    | inr (a, i) ↦ rw (chosen (close_std_in k) (close_output k) v i) (λ h.
        let (closed, rest, same) =
          both (close_std_in k v).0 (close_output k) (close_std_in k v).1 h in
        rw same (close_output-closed b (close_std_in k v).1 (ground (arith, e)) rest))
  ]

  members-IsClosed :
      (v : AsyncCommand × IoContext W Op)
      → (close_command k v).0 ≡ ok true
      → IsClosed (close_command k v).1
  unfolding close_command close_std_in
  members-IsClosed v = elim (Option-cases v.0.m_std_in) [
    | inl e ↦ rw (chosen (close_std_in k) (close_output k) v e) (close_output-IsClosed v e)
    | inr (b, e) ↦ rw (chosen (close_std_in k) (close_output k) v e) (λ h.
        let (closed, rest, same) =
          both (close_std_in k v).0 (close_output k) (close_std_in k v).1 h in
        rw same (close_output-IsClosed (close_std_in k v).1 (ground (arith, closed)) rest))
  ]

  -- A command whose closing reports success is closed whole: the objects that were its input and its
  -- output, and its own, have no descriptor any more, the command keeps neither of them nor a
  -- process, and its destructors do not end the program.
  pub close_command-IsClosed :
      (v : AsyncCommand × IoContext W Op)
      → (close_command k v).0 ≡ ok true
      → IsClosed (close_command k v).1
        × ((b : ℕ) → v.0.m_std_in ≡ some b → Gone b (close_command k v).1)
        × ((b : ℕ) → v.0.m_std_out ≡ some b → Gone b (close_command k v).1)
        × (destroy_command (close_command k v).1 ≡ ok tt)
  close_command-IsClosed v h =
      let closed = members-IsClosed v h in
      (
        closed,
        λ b e. input-closed b v e h,
        λ b e. output-closed b v e h,
        IsClosed-destroy_command (close_command k v).1 closed,
      )

module _ {W Op : Type 0} (k : Kernel W) (os : Processes W)
    (meanwhile : IoContext W Op → IoContext W Op) (op : Op) where
  -- A process that still runs when it is waited for, and has ended when its descriptor is ready: the
  -- command is closed, and its result is that of the closing.
  pub wait_termination-ended :
      (v : AsyncCommand × IoContext W Op) (pid : ℕ) (w w' : W)
      → v.0.m_process_id ≡ some (suc pid)
      → os.waitpid (some (suc pid)) v.1.kernel ≡ (some 0, w)
      → (let u =
            meanwhile
              (add_pending_op v.0.afd op (record (watch_read v.0.afd v.1) { kernel = w })) in
          os.waitpid (some (suc pid)) u.kernel ≡ (some (suc pid), w'))
      → let u =
          meanwhile (add_pending_op v.0.afd op (record (watch_read v.0.afd v.1) { kernel = w })) in
        wait_termination k os meanwhile op v
        ≡ close_command k (v.0, unwatch_read v.0.afd (record u { kernel = w' }))
  unfolding wait_termination after_wait awaited_read waitpid_syscall co_await should_wait watch_read
      change
  wait_termination-ended v pid w w' hp first second = ground (arith, hp, first, second)

  -- A coroutine that waits for a process and is resumed while the process still runs goes on: the
  -- wait fails with no error, the command is not closed, and the coroutine, which no longer waits,
  -- is queued once more.
  pub wait_termination-early :
      (v : AsyncCommand × IoContext W Op) (pid : ℕ) (w w' : W)
      → v.0.m_process_id ≡ some pid
      → os.waitpid (some pid) v.1.kernel ≡ (some 0, w)
      → (let u =
            meanwhile
              (add_pending_op v.0.afd op (record (watch_read v.0.afd v.1) { kernel = w })) in
          os.waitpid (some pid) u.kernel ≡ (some 0, w'))
      → let t = wait_termination k os meanwhile op v in
        let u =
          meanwhile (add_pending_op v.0.afd op (record (watch_read v.0.afd v.1) { kernel = w })) in
        (t.0 ≡ ok false)
        × (t.1.0 ≡ v.0)
        × (t.1.1.m_managed_fd ≡ u.m_managed_fd)
        × (queue v.0.afd t.1.1 ≡ queue v.0.afd u ++ op ∷ [])
  unfolding wait_termination after_wait awaited_read waitpid_syscall co_await should_wait
      add_pending_op change unwatch_read
  wait_termination-early v pid w w' hp first second = ground (arith, hp, first, second)
