-- ===== src/Task.antt =====
-- The coroutine type `std::task` of include/task.hh: who frees the frame of a coroutine, and what
-- the coroutine that awaits it is given. A destroyed frame is `none`.
use shared_state_async.Prelude.{Bool, true, false, Option, none, some, ◌≡◌, refl}
use shared_state_async.Errors.{Result, ok, crash}

-- What the body of a coroutine does when it is resumed: it returns, throws, or is suspended.
pub data Body (T : Type 0) : Type 0 where
  returns : T → Body T
  throws suspends : Body T

-- The frame with its promise. `result` is `none` before anything has been stored in it.
pub record Frame (T : Type 0) : Type 0 where
  pub has_waiter : Bool
  pub result : Option T
  pub is_done : Bool

module _ {T : Type 0} where
  -- A coroutine that has been created and not started.
  abbrev pub created : Frame T
  created = record { has_waiter = false; result = none; is_done = false }

  -- `final_awaiter::await_suspend`: the waiter is resumed, or the frame destroys itself.
  unfoldable pub final_suspend : Frame T → Option (Frame T)
  final_suspend f = elim f.has_waiter [ true ↦ some (record f { is_done = true }) | false ↦ none ]

  -- `return_value` and `unhandled_exception`, which keeps nothing of the exception.
  unfoldable pub run_body : Body T → Frame T → Option (Frame T)
  unfolding final_suspend
  run_body (returns v) f = final_suspend (record f { result = some v })
  run_body throws f = final_suspend f
  run_body suspends f = some f

  -- `~task`, which reads `done()` of the frame.
  unfoldable pub destroy_task : Option (Frame T) → Result (Option (Frame T))
  destroy_task none = crash
  destroy_task (some f) = elim f.is_done [ true ↦ ok none | false ↦ ok (some f) ]

  -- `f(…).resume();`: the task is started and destroyed at the end of the statement.
  unfoldable pub detach : Body T → Result (Option (Frame T))
  unfolding run_body destroy_task
  detach b = destroy_task (run_body b created)

  -- `task::await_suspend`
  unfoldable pub await_task : Body T → Option (Frame T)
  unfolding run_body
  await_task b = run_body b (record created { has_waiter = true })

  -- `task::await_resume`, of a frame that is done: the value that was stored, if any was. To read
  -- one that was not is undefined.
  unfoldable pub await_resume : Option (Frame T) → Result T
  await_resume none = crash
  await_resume (some f) = elim f.result [ none ↦ crash | some v ↦ ok v ]

  -- Whether a body ends at once.
  abbrev pub ends : Body T → Bool
  ends (returns v) = true
  ends throws = true
  ends suspends = false

  -- The value that a body gives, if it gives one.
  abbrev pub given : Body T → Result T
  given (returns v) = ok v
  given throws = crash
  given suspends = crash

  -- A coroutine that is awaited and ends keeps its frame until the one that awaits it has taken the
  -- result, and it is destroyed once then: a returned value is passed on, and an exception is lost,
  -- with an undefined value in its place.
  pub await_task_lem :
      (b : Body T)
      → ends b ≡ true
      → (await_resume (await_task b) ≡ given b) × (destroy_task (await_task b) ≡ ok none)
  unfolding await_task await_resume destroy_task
  await_task_lem (returns v) h = (refl, refl)
  await_task_lem throws h = (refl, refl)
  await_task_lem suspends h = absurd (cc)
