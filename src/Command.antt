-- ===== src/Command.antt =====
-- Child processes: `AsyncCommand` of include/async_command.hh and src/async_command.cc, in the
-- parent. What the child executes is another program.
pub mod Descriptors
pub mod Accounting
pub mod Closing
pub mod Child
use shared_state_async.Prelude.{
  ℕ, Bool, true, false, Option, none, some, List, [], ◌∷◌, ◌==◌, if◌then◌else◌,
}
use shared_state_async.Errors.{Result, ok, fail, throw, crash, errno}
use shared_state_async.Wire.Io.{Io, pure, lift, ◌>>=◌, ◌>>◌}
use shared_state_async.EventLoop.{
  IoContext, Kernel, attach, attach_readonly, attach_write_only, close_afd,
}
use shared_state_async.EventLoop.Counting.{in_kernel, close_all, managed_fd}
use shared_state_async.Awaitable.{Answer, value, again, error, AwaitableSyscall, Awaiting}
use shared_state_async.Awaitable.Operations.{awaited_read, waitpid_syscall}

-- The system calls on processes and pipes. A pipe has an end to read and an end to write; `fork`
-- gives the child's number to the parent, or `none` for -1.
pub record Processes (W : Type 0) : Type 0 where
  pub pipe : W → Option (ℕ × ℕ) × W
  pub fork : W → Option ℕ × W
  pub pidfd_open : ℕ → W → Option ℕ × W
  pub kill : ℕ → W → Unit {0} × W
  pub close : ℕ → W → Bool × W
  pub waitpid : Option ℕ → W → Option ℕ × W

-- The address of the object of the process's descriptor, and what the derived class adds.
pub record AsyncCommand : Type 0 where
  pub afd : ℕ
  pub m_process_id : Option ℕ
  pub m_std_out : Option ℕ
  pub m_std_in : Option ℕ

-- The ends in the order in which they are closed after a failure.
abbrev pub all_ends : ℕ × ℕ → ℕ × ℕ → List ℕ
all_ends p q = p.0 ∷ q.1 ∷ q.0 ∷ p.1 ∷ []

module _ {W Op : Type 0} (k : Kernel W) (os : Processes W) where
  -- After `pidfd_open`: the pipe to the child, the pipe from it, the child and its descriptor.
  unfoldable pub manage_command : ℕ × ℕ → ℕ × ℕ → ℕ → ℕ → Io (IoContext W Op) AsyncCommand
  manage_command p q pid child_wait_fd = do
    t_pac ← managed_fd k (attach k) child_wait_fd
    std_out ← managed_fd k (attach_readonly k) q.0
    std_in ← managed_fd k (attach_write_only k) p.1
    close_all os.close (p.0 ∷ q.1 ∷ [])
    pure (record {
      afd = t_pac;
      m_process_id = some pid;
      m_std_out = some std_out;
      m_std_in = some std_in;
    })

  unfoldable pub in_parent : ℕ × ℕ → ℕ × ℕ → ℕ → Option ℕ → Io (IoContext W Op) AsyncCommand
  in_parent p q pid (some child_wait_fd) = manage_command p q pid child_wait_fd
  in_parent p q pid none =
      close_all os.close (all_ends p q) >> (in_kernel (os.kill pid) >> lift (fail errno))

  unfoldable pub after_fork : ℕ × ℕ → ℕ × ℕ → Option ℕ → Io (IoContext W Op) AsyncCommand
  unfolding in_parent
  after_fork p q none = close_all os.close (all_ends p q) >> lift (fail errno)
  after_fork p q (some pid) = in_kernel (os.pidfd_open pid) >>= in_parent p q pid

  unfoldable pub after_second_pipe : ℕ × ℕ → Option (ℕ × ℕ) → Io (IoContext W Op) AsyncCommand
  unfolding after_fork
  after_second_pipe p none = close_all os.close (p.1 ∷ p.0 ∷ []) >> lift (fail errno)
  after_second_pipe p (some q) = in_kernel os.fork >>= after_fork p q

  unfoldable pub after_first_pipe : Option (ℕ × ℕ) → Io (IoContext W Op) AsyncCommand
  unfolding after_second_pipe
  after_first_pipe none = lift (fail errno)
  after_first_pipe (some p) = in_kernel os.pipe >>= after_second_pipe p

  unfoldable pub execute : Io (IoContext W Op) AsyncCommand
  unfolding after_first_pipe
  execute = in_kernel os.pipe >>= after_first_pipe

module _ {W Op : Type 0} where
  -- `if(p) if(!co_await …) co_return false;`
  abbrev pub if_set :
      Option ℕ → Io (AsyncCommand × IoContext W Op) Bool → Io (AsyncCommand × IoContext W Op) Bool
  if_set none m v = (ok true, v)
  if_set (some a) m v = m v

  abbrev pub and_then :
      Io (AsyncCommand × IoContext W Op) Bool → Bool → Io (AsyncCommand × IoContext W Op) Bool
  and_then m false v = (ok false, v)
  and_then m true v = m v

abbrev pub succeeded : Result Bool → Bool
succeeded (ok b) = b
succeeded (fail e) = false
succeeded throw = false
succeeded crash = false

module _ {W Op : Type 0} (k : Kernel W) where
  unfoldable pub close_std_in : Io (AsyncCommand × IoContext W Op) Bool
  close_std_in v =
      let (r, s) = close_afd k v.0.m_std_in v.1 in
      (r, (if succeeded r then record v.0 { m_std_in = none } else v.0, s))

  unfoldable pub close_std_out : Io (AsyncCommand × IoContext W Op) Bool
  close_std_out v =
      let (r, s) = close_afd k v.0.m_std_out v.1 in
      (r, (if succeeded r then record v.0 { m_std_out = none } else v.0, s))

  -- The last part of `closeAFD` of a command.
  unfoldable pub close_process : Io (AsyncCommand × IoContext W Op) Bool
  close_process v =
      let (r, s) = close_afd k (some v.0.afd) v.1 in (r, (record v.0 { m_process_id = none }, s))

  unfoldable pub close_output : Io (AsyncCommand × IoContext W Op) Bool
  unfolding close_std_out close_process
  close_output v = (if_set v.0.m_std_out close_std_out >>= and_then close_process) v

  -- `IOContext::closeAFD` of a command
  unfoldable pub close_command : Io (AsyncCommand × IoContext W Op) Bool
  unfolding close_std_in close_output
  close_command v = (if_set v.0.m_std_in close_std_in >>= and_then close_output) v

-- `tPid == …`; the number of a process that is not there is -1, as is `errorValue`.
abbrev pub is_pid : Option ℕ → Answer ℕ → Bool
is_pid (some pid) (value n) = pid == n
is_pid (some pid) again = false
is_pid (some pid) error = false
is_pid none (value n) = false
is_pid none again = true
is_pid none error = true

module _ {W Op : Type 0} (k : Kernel W) (os : Processes W) where
  -- What `waitpid` has given, and whether its error is reported.
  unfoldable pub after_wait : Answer ℕ → Bool → Io (AsyncCommand × IoContext W Op) Bool
  unfolding close_command
  after_wait r reported v =
      if is_pid v.0.m_process_id r
      then close_command k v
      else if reported
      then (fail errno, v)
      else (ok false, v)

  unfoldable pub wait_termination :
      (IoContext W Op → IoContext W Op) → Op → Io (AsyncCommand × IoContext W Op) Bool
  unfolding awaited_read waitpid_syscall after_wait
  wait_termination meanwhile op v =
      let t =
        awaited_read (waitpid_syscall os.waitpid) true meanwhile v.0.afd op v.0.m_process_id v.1 in
      after_wait t.0.m_return_value t.0.m_error (v.0, t.1)
