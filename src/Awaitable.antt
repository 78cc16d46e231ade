-- ===== src/Awaitable.antt =====
-- The awaitable system calls: `AwaitableSyscall` of include/awaitable_syscall.hh.
pub mod Keeping
pub mod Laws
pub mod Operations
pub mod Transfers
use shared_state_async.Prelude.{Bool, true, false, not, ◌&&◌, ℕ, if◌then◌else◌}
use shared_state_async.EventLoop.{IoContext, add_pending_op}

-- What a system call gives: a value; `errorValue` with `EAGAIN`, `EWOULDBLOCK` or `EINPROGRESS` in
-- `errno`; or `errorValue` with another error.
pub data Answer (A : Type 0) : Type 0 where
  value : A → Answer A
  again error : Answer A

-- `m_error` says whether an error has been written to `*mError`; `derived` is the state of the
-- derived class.
pub record AwaitableSyscall (A C : Type 0) : Type 0 where
  pub m_did_suspend : Bool
  pub m_return_value : Answer A
  pub m_error : Bool
  pub derived : C

module _ {A : Type 0} where
  unfoldable pub should_wait : Answer A → Bool
  should_wait (value x) = false
  should_wait again = true
  should_wait error = false

  -- `mReturnValue == errorValue`
  abbrev pub is_error : Answer A → Bool
  is_error (value x) = false
  is_error again = true
  is_error error = true

abbrev pub Awaiting : Type 0 → Type 0 → Type 0 → Type 0 → Type 0
Awaiting W Op A C = AwaitableSyscall A C × IoContext W Op

-- The operation as its constructor leaves it.
abbrev pub fresh : {A C : Type 0} → C → AwaitableSyscall A C
fresh d = record { m_did_suspend = false; m_return_value = error; m_error = false; derived = d }

module _ {W Op A C : Type 0} where
  -- The descriptor's object, the awaiting coroutine, the operation and the context.
  unfoldable pub suspend : ℕ → Op → Awaiting W Op A C → Awaiting W Op A C
  suspend a op t = (record t.0 { m_did_suspend = true }, add_pending_op a op t.1)

  -- `rs_error_bubble_or_exit(rs_errno_to_condition(errno), mError, …)`
  abbrev pub bubble : Awaiting W Op A C → Awaiting W Op A C
  bubble t = (record t.0 { m_error = true }, t.1)

module _ {W Op A C : Type 0} (syscall : C → W → Answer A × C × W) where
  -- `mReturnValue = static_cast<SyscallOp*>(this)->syscall()`
  unfoldable pub attempt : AwaitableSyscall A C → IoContext W Op → Awaiting W Op A C
  attempt x s =
      let (r, d, w) = syscall x.derived s.kernel in
      (record x { m_return_value = r; derived = d }, record s { kernel = w })

  unfoldable pub await_suspend :
      ℕ → Op → AwaitableSyscall A C → IoContext W Op → Bool × Awaiting W Op A C
  unfolding attempt suspend should_wait
  await_suspend a op x s =
      let t = attempt x s in
      if should_wait t.0.m_return_value
      then (true, suspend a op t)
      else if is_error t.0.m_return_value
      then (false, bubble t)
      else (false, t)

  -- The value that the coroutine goes on with is `m_return_value`.
  unfoldable pub await_resume :
      Bool → ℕ → Op → AwaitableSyscall A C → IoContext W Op → Awaiting W Op A C
  unfolding attempt suspend should_wait
  await_resume multi_shot a op x s =
      let t = attempt x s in
      if not x.m_did_suspend
      then (x, s)
      else if multi_shot && should_wait t.0.m_return_value
      then suspend a op t
      else if is_error t.0.m_return_value
      then bubble t
      else t

  -- `co_await`: where the coroutine is suspended, the event loop takes the context on until it
  -- resumes it, and then the call is made again.
  unfoldable pub co_await :
      Bool → (IoContext W Op → IoContext W Op) → ℕ → Op → C → IoContext W Op → Awaiting W Op A C
  unfolding await_suspend await_resume
  co_await multi_shot meanwhile a op d s =
      let (suspended, t) = await_suspend a op (fresh d) s in
      if suspended
      then await_resume multi_shot a op t.0 (meanwhile t.1)
      else await_resume multi_shot a op t.0 t.1
