-- ===== src/EventLoop/Resuming.antt =====
-- `AsyncFileDescriptor::resumePendingOps` of include/async_file_descriptor.hh resumes what waits,
-- in order.
use mathlib.Core.List.{append_assoc, append-nil}
use shared_state_async.Prelude.{
  ℕ, true, not, List, [], ◌∷◌, ◌++◌, length, ◌==◌, ◌≡◌, refl, sym, ◌∙◌, ap, arith,
}
use shared_state_async.Errors.{ok}
use shared_state_async.EventLoop.{IoContext, queue, pop, tail, change}
use shared_state_async.EventLoop.Turn.{resume_loop, resume_pending_ops}

-- The queue is private to the object: a coroutine can add operations at its end, and nothing else.
pub record IsResuming {W Op : Type 0} (resume : Op → IoContext W Op → IoContext W Op) : Type 0 where
  pub appended : ℕ → Op → IoContext W Op → List Op
  pub appends :
      (a : ℕ) (op : Op) (s : IoContext W Op) → queue a (resume op s) ≡ queue a s ++ appended a op s

queue-pop : {W Op : Type 0} (a : ℕ) (s : IoContext W Op) → queue a (pop a s) ≡ tail (queue a s)
unfolding pop change
queue-pop a s = ground arith

module _ {W Op : Type 0} (resume : Op → IoContext W Op → IoContext W Op)
    (law : IsResuming resume) where
  -- Each operation of a list, once and in order; each leaves the queue as it returns.
  pub resume_each : List Op → ℕ → IoContext W Op → IoContext W Op
  resume_each [] a s = s
  resume_each (op ∷ ops) a s = resume_each ops a (pop a (resume op s))

  -- What the operations of a list append, one after another.
  pub left_over : List Op → ℕ → IoContext W Op → List Op
  left_over [] a s = []
  left_over (op ∷ ops) a s = law.appended a op s ++ left_over ops a (pop a (resume op s))

  queue-resume :
      (op : Op) (ops more : List Op) (a : ℕ) (s : IoContext W Op)
      → queue a s ≡ op ∷ (ops ++ more)
      → queue a (pop a (resume op s)) ≡ ops ++ (more ++ law.appended a op s)
  queue-resume op ops more a s h =
      queue-pop a (resume op s)
      ∙ ap tail (law.appends a op s)
      ∙ rw h (append_assoc ops more (law.appended a op s))

  resume_loop_lem :
      (ops more : List Op) (a : ℕ) (s : IoContext W Op)
      → queue a s ≡ ops ++ more
      → (resume_loop resume (length ops) a s ≡ (ok true, resume_each ops a s))
        × (queue a (resume_each ops a s) ≡ more ++ left_over ops a s)
  unfolding resume_loop resume_each left_over
  resume_loop_lem [] more a s h = (refl, h ∙ sym (append-nil more))
  resume_loop_lem (op ∷ ops) more a s h =
      let (go, left) =
        resume_loop_lem ops (more ++ law.appended a op s) a (pop a (resume op s))
          (queue-resume op ops more a s h) in
      (
        rw (h, resume_loop) go,
        left ∙ append_assoc more (law.appended a op s) (left_over ops a (pop a (resume op s))),
      )

  resume_list :
      (ops : List Op) (a : ℕ) (s : IoContext W Op)
      → queue a s ≡ ops
      → ((resume_pending_ops resume a s).0 ≡ ok (not (length ops == 0)))
        × ((resume_pending_ops resume a s).1 ≡ resume_each ops a s)
        × (queue a (resume_pending_ops resume a s).1 ≡ left_over ops a s)
  unfolding resume_pending_ops resume_each left_over
  resume_list [] a s h = rw (h, resume_pending_ops) (refl, refl, h)
  resume_list (op ∷ ops) a s h =
      let (e, left) = resume_loop_lem (op ∷ ops) [] a s (h ∙ ap (◌∷◌ op) (sym (append-nil ops))) in
      let ran : resume_pending_ops resume a s ≡ (ok true, resume_each (op ∷ ops) a s) =
        rw (h, resume_pending_ops) (ground (arith, e)) in
      rw ran (ground arith, refl, left)

  -- Where a coroutine can only add operations at the end of a queue: resuming the pending
  -- operations of a descriptor resumes those that waited at the start, each once and in their
  -- order. What they appended meanwhile is not resumed, and is the queue that is left. The result
  -- says whether anything waited.
  pub resume_pending_ops_lem :
      (a : ℕ) (s : IoContext W Op)
      → ((resume_pending_ops resume a s).0 ≡ ok (not (length (queue a s) == 0)))
        × ((resume_pending_ops resume a s).1 ≡ resume_each (queue a s) a s)
        × (queue a (resume_pending_ops resume a s).1 ≡ left_over (queue a s) a s)
  resume_pending_ops_lem a s = resume_list (queue a s) a s refl
