-- ===== src/Awaitable/Keeping.antt =====
-- What `co_await` of src/awaitable_syscall.hh, with an operation that writes, keeps of the state.
use shared_state_async.Prelude.{ℕ, Bool, true, false, if◌then◌else◌, arith}
use shared_state_async.EventLoop.{IoContext, watch_write, unwatch_write, add_pending_op}
use shared_state_async.Awaitable.{
  Answer, AwaitableSyscall, Awaiting, fresh, await_suspend, await_resume, co_await,
}
use shared_state_async.Awaitable.Operations.{awaited_write}

module _ {W Op A C : Type 0} (syscall : C → W → Answer A × C × W)
    (meanwhile : IoContext W Op → IoContext W Op) (a : ℕ) (op : Op)
    (P : IoContext W Op → Type 0) where
  -- What an operation that writes keeps: what its parts keep.
  pub record KeptByParts : Type 0 where
    pub by_watch : (s : IoContext W Op) → P s → P (watch_write a s) × P (unwatch_write a s)
    pub by_queue : (s : IoContext W Op) → P s → P (add_pending_op a op s)
    pub by_call :
        (d : C) (s : IoContext W Op) → P s → P (record s { kernel = (syscall d s.kernel).2 })
    pub by_loop : (s : IoContext W Op) → P s → P (meanwhile s)

  module _ (kept : KeptByParts) where
    await_resume-kept :
        (x : AwaitableSyscall A C) (s : IoContext W Op)
        → P s
        → P (await_resume syscall false a op x s).1
    unfolding await_resume
    await_resume-kept x s p = ground (arith, p, kept.by_call x.derived s p)

    await_suspend-kept :
        (x : AwaitableSyscall A C) (s : IoContext W Op)
        → P s
        → P (await_suspend syscall a op x s).1.1
    unfolding await_suspend
    await_suspend-kept x s p =
        let called = kept.by_call x.derived s p in ground (arith, called, kept.by_queue _ called)

    either_kept :
        (suspended : Bool) (t : Awaiting W Op A C)
        → P t.1
        → P
            (if suspended
              then await_resume syscall false a op t.0 (meanwhile t.1)
              else await_resume syscall false a op t.0 t.1).1
    either_kept true t p = await_resume-kept t.0 (meanwhile t.1) (kept.by_loop t.1 p)
    either_kept false t p = await_resume-kept t.0 t.1 p

    co_await-kept :
        (d : C) (s : IoContext W Op) → P s → P (co_await syscall false meanwhile a op d s).1
    unfolding co_await
    co_await-kept d s p =
        let r = await_suspend syscall a op (fresh d) s in
        either_kept r.0 r.1 (await_suspend-kept (fresh d) s p)

    pub awaited_write-kept :
        (d : C) (s : IoContext W Op) → P s → P (awaited_write syscall meanwhile a op d s).1
    unfolding awaited_write
    awaited_write-kept d s p =
        (kept.by_watch _ (co_await-kept d (watch_write a s) (kept.by_watch s p).0)).1
