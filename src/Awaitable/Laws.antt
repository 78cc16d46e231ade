-- ===== src/Awaitable/Laws.antt =====
-- What `co_await` of an `AwaitableSyscall` of include/awaitable_syscall.hh gives.
use shared_state_async.Prelude.{
  Bool, true, false, not, ◌++◌, ◌∷◌, [], ℕ, if◌then◌else◌, ◌≡◌, arith, ◌∙◌,
}
use shared_state_async.EventLoop.{IoContext, add_pending_op, queue, change}
use shared_state_async.Awaitable.{
  Answer, value, again, should_wait, is_error, suspend, await_resume, co_await,
}

module _ {W Op A C : Type 0} (syscall : C → W → Answer A × C × W) (multi_shot : Bool)
    (meanwhile : IoContext W Op → IoContext W Op) (a : ℕ) (op : Op) where
  -- A call that need not wait is made once, and the coroutine is not suspended: nothing is queued.
  pub co_await-at_once :
      (d d' : C) (s : IoContext W Op) (r : Answer A) (w : W)
      → syscall d s.kernel ≡ (r, d', w)
      → should_wait r ≡ false
      → co_await syscall multi_shot meanwhile a op d s ≡ (
        record { m_did_suspend = false; m_return_value = r; m_error = is_error r; derived = d' },
        record s { kernel = w },
      )
  unfolding co_await should_wait
  co_await-at_once d d' s r w e h = ground (arith, e)

  -- Where the first call has to wait, the coroutine is queued, and the call is made once more when
  -- it is resumed.
  pub co_await-suspends :
      (d d' : C) (s : IoContext W Op) (w : W)
      → syscall d s.kernel ≡ (again, d', w)
      → co_await syscall multi_shot meanwhile a op d s
        ≡ await_resume syscall multi_shot a op
            (record { m_did_suspend = true; m_return_value = again; m_error = false; derived = d' })
            (meanwhile (add_pending_op a op (record s { kernel = w })))
  unfolding co_await should_wait
  co_await-suspends d d' s w e = ground (arith, e)

  -- A coroutine that is resumed when its call has a value goes on with it. Nothing is reported, and
  -- no more is queued than the coroutine once, before it was resumed.
  pub co_await-resumed :
      (d d' d'' : C) (s : IoContext W Op) (w w' : W) (v : A)
      → syscall d s.kernel ≡ (again, d', w)
      → (let u = meanwhile (add_pending_op a op (record s { kernel = w })) in
          syscall d' u.kernel ≡ (value v, d'', w'))
      → co_await syscall multi_shot meanwhile a op d s ≡ (
        record { m_did_suspend = true; m_return_value = value v; m_error = false; derived = d'' },
        record (meanwhile (add_pending_op a op (record s { kernel = w }))) { kernel = w' },
      )
  unfolding await_resume should_wait
  co_await-resumed d d' d'' s w w' v e f = co_await-suspends d d' s w e ∙ ground (arith, f)

  -- A coroutine that is resumed too early, when its call would still have to wait, goes on all the
  -- same, with the error value. A single-shot operation reports an error. A multi-shot one reports
  -- none and queues the coroutine once more, which is not suspended in it any longer.
  pub co_await-early :
      (d d' d'' : C) (s : IoContext W Op) (w w' : W)
      → syscall d s.kernel ≡ (again, d', w)
      → (let u = meanwhile (add_pending_op a op (record s { kernel = w })) in
          syscall d' u.kernel ≡ (again, d'', w'))
      → let t = co_await syscall multi_shot meanwhile a op d s in
        let u = meanwhile (add_pending_op a op (record s { kernel = w })) in
        (t.0.m_return_value ≡ again)
        × (t.0.m_error ≡ not multi_shot)
        × (queue a t.1 ≡ (if multi_shot then queue a u ++ op ∷ [] else queue a u))
  unfolding await_resume should_wait suspend add_pending_op change
  co_await-early d d' d'' s w w' e f = rw (co_await-suspends d d' s w e) (ground (arith, f))
