-- ===== src/Timer.antt =====
-- `AsyncTimer::create` and `AsyncTimer::wait` of src/async_timer.cc.
use shared_state_async.Prelude.{ℕ, Bool, ◌==◌, if◌then◌else◌, ◌≡◌, ◌⊎◌, arith}
use shared_state_async.Prelude.Int.{ℤ, pos, ltb_ℤ, ◌<ℤ◌, ◌≤ℤ◌}
use shared_state_async.EventLoop.{IoContext, Kernel, register_fd, attach_readonly}
use shared_state_async.Wire.Io.{Io}
use shared_state_async.Errors.{Result, ok, fail, throw, crash, invalid_argument, errno}

abbrev pub max_wait_nanoseconds : ℤ
max_wait_nanoseconds = pos 999_999_999

-- `sizeof(tBuff)`
abbrev pub buffer_size : ℕ
buffer_size = 8

-- Whether the read has given a whole counter.
abbrev pub expired : Result ℕ → Result Bool
expired (ok num_read_bytes) = ok (num_read_bytes == buffer_size)
expired (fail e) = fail e
expired throw = throw
expired crash = crash

-- Seconds and nanoseconds, whether `timerfd_settime` succeeds, and what the awaited `ReadOp` gives.
unfoldable pub wait : ℤ → ℤ → Bool → Result ℕ → Result Bool
wait wsec wnsec set read =
    if ltb_ℤ wsec (pos 0)
    then fail invalid_argument
    else if ltb_ℤ wnsec (pos 0)
    then fail invalid_argument
    else if ltb_ℤ max_wait_nanoseconds wnsec
    then fail invalid_argument
    else if set
    then expired read
    else fail errno

module _ {W Op : Type 0} (k : Kernel W) where
  -- The null pointer that a failed registration returns is followed without a check.
  unfoldable pub attach_timer : Result ℕ → Io (IoContext W Op) ℕ
  attach_timer (ok a) s = (ok a, attach_readonly k a s)
  attach_timer (fail e) s = (crash, s)
  attach_timer throw s = (throw, s)
  attach_timer crash s = (crash, s)

  -- `timerfd_create` is not checked: the argument is its result, where -1 is a number that `fcntl`
  -- refuses.
  unfoldable pub create : ℕ → Io (IoContext W Op) ℕ
  unfolding attach_timer
  create timer_fd s = attach_timer (register_fd k timer_fd s).0 (register_fd k timer_fd s).1

-- A wait of negative seconds, or of nanoseconds out of their range, is refused before the timer is
-- set.
wait_refused :
    (wsec wnsec : ℤ) (set : Bool) (read : Result ℕ)
    → (wsec <ℤ pos 0) ⊎ ((wnsec <ℤ pos 0) ⊎ (max_wait_nanoseconds <ℤ wnsec))
    → wait wsec wnsec set read ≡ fail invalid_argument
unfolding wait
wait_refused wsec wnsec set read h = ground arith

-- Any other wait comes to the timer.
wait_accepted :
    (wsec wnsec : ℤ) (set : Bool) (read : Result ℕ)
    → pos 0 ≤ℤ wsec
    → pos 0 ≤ℤ wnsec
    → wnsec ≤ℤ max_wait_nanoseconds
    → wait wsec wnsec set read ≡ (if set then expired read else fail errno)
unfolding wait
wait_accepted wsec wnsec set read h k l = ground arith
