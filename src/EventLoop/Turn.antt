-- ===== src/EventLoop/Turn.antt =====
-- A round of `IOContext::run` of src/io_context.cc, with `AsyncFileDescriptor::resumePendingOps` of
-- include/async_file_descriptor.hh. `resume` is what the program does from the resumption of a
-- coroutine to its next suspension.
use shared_state_async.Prelude.{
  ℕ, zero, suc, Bool, true, false, none, some, List, [], ◌∷◌, length, ◌==◌, if◌then◌else◌,
}
use shared_state_async.Prelude.Map.{Map, lookup, nat_key}
use shared_state_async.Errors.{ok, fail, crash, errno}
use shared_state_async.Wire.Io.{Io, ◌>>◌, ◌>>=◌}
use shared_state_async.EventLoop.{
  Events, events_eq, AsyncFileDescriptor, IoContext, Kernel, epoll_ctl_mod, change, control, queue,
  head, pop, with_io_state, default_max_events,
}

module _ {W Op : Type 0} (resume : Op → IoContext W Op → IoContext W Op) where
  -- The loop of `resumePendingOps`. `front()` of an empty queue is undefined.
  unfoldable pub resume_loop : ℕ → ℕ → Io (IoContext W Op) Bool
  unfolding pop
  resume_loop zero a s = (ok true, s)
  resume_loop (suc num_pending) a s = elim (head (queue a s)) [
    | none ↦ (crash, s)
    | some op ↦ resume_loop num_pending a (pop a (resume op s))
  ]

  unfoldable pub resume_pending_ops : ℕ → Io (IoContext W Op) Bool
  unfolding resume_loop
  resume_pending_ops a s =
      if length (queue a s) == 0 then (ok false, s) else resume_loop (length (queue a s)) a s

  -- An event of a descriptor that is not managed (any more) is skipped.
  unfoldable pub handle_event : ℕ → Io (IoContext W Op) Bool
  unfolding resume_pending_ops
  handle_event fd s = elim (lookup fd s.m_managed_fd) [
    | none ↦ (ok false, s)
    | some a ↦ resume_pending_ops a s
  ]

  unfoldable pub handle_events : List ℕ → Io (IoContext W Op) Bool
  unfolding handle_event
  handle_events [] s = (ok true, s)
  handle_events (fd ∷ fds) s = (handle_event fd >> handle_events fds) s

-- `aFD->getNextIoState() | EPOLLET`
abbrev pub wanted : {Op : Type 0} → AsyncFileDescriptor Op → Events
wanted afd = record afd.m_next_io_state { epollet = true }

module _ {W Op : Type 0} (k : Kernel W) where
  unfoldable pub refresh : ℕ → IoContext W Op → IoContext W Op
  unfolding events_eq change control
  refresh a s =
      if events_eq (s.objects a).m_io_state (wanted (s.objects a))
      then s
      else change a (with_io_state (wanted (s.objects a)))
          (control k epoll_ctl_mod (wanted (s.objects a)) a s)

  -- The loop over the managed descriptors.
  unfoldable pub refresh_all : Map ℕ ℕ → IoContext W Op → IoContext W Op
  unfolding refresh
  refresh_all [] s = s
  refresh_all ((fd, a) ∷ m) s = refresh_all m (refresh a s)

  unfoldable pub update_interest : Bool → Io (IoContext W Op) (Unit {0})
  unfolding refresh_all
  update_interest b s = (ok tt, refresh_all s.m_managed_fd s)

module _ {W : Type 0} (k : Kernel W) where
  -- The rounds in which EINTR interrupts the wait: they go back to it at once, the file being
  -- compiled with `RS_DEBUG_LEVEL` 1.
  unfoldable pub retried : ℕ → W → W
  retried zero w = w
  retried (suc n) w = retried n (k.interrupted_wait default_max_events w)

module _ {W Op : Type 0} (k : Kernel W) (resume : Op → IoContext W Op → IoContext W Op) where
  -- What one round of the endless loop does, with the interrupted ones before it. Any other failure of
  -- `epoll_wait` ends the process.
  unfoldable pub turn : Io (IoContext W Op) (Unit {0})
  unfolding retried handle_events update_interest
  turn s =
      let waiting = retried k (k.interruptions s.kernel) s.kernel in
      let (events, w) = k.epoll_wait default_max_events waiting in
      elim events [
        | none ↦ (fail errno, record s { kernel = w })
        | some fds ↦ (handle_events resume fds >>= update_interest k) (record s { kernel = w })
      ]

  -- So many rounds.
  unfoldable pub run : ℕ → Io (IoContext W Op) (Unit {0})
  unfolding turn
  run zero s = (ok tt, s)
  run (suc rounds) s = (turn >> run rounds) s
