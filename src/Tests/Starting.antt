-- ===== src/Tests/Starting.antt =====
-- The start of a command, where the kernel keeps the list of the open descriptors.
use shared_state_async.Prelude.{
  ℕ, suc, ◌+◌, ◌<◌, true, false, ◌||◌, none, some, List, [], ◌∷◌, ◌==◌, if◌then◌else◌, ◌≡◌, refl,
  arith,
}
use shared_state_async.EventLoop.{Kernel, IoContext, unallocated}
use shared_state_async.Command.{Processes, execute}
use shared_state_async.Command.Descriptors.{is_in, Post, TracksProcesses}
use shared_state_async.Command.Accounting.{Started, Unchanged, execute-Post}

abbrev total : List ℕ → ℕ
total [] = 0
total (fd ∷ fds) = fd + total fds

-- Every occurrence goes.
abbrev remove : ℕ → List ℕ → List ℕ
remove fd [] = []
remove fd (x ∷ xs) = if x == fd then remove fd xs else x ∷ remove fd xs

remove_lem :
    (fd j : ℕ) (xs : List ℕ) → is_in j (remove fd xs) ≡ (if fd == j then false else is_in j xs)
remove_lem fd j [] = ground arith
remove_lem fd j (x ∷ xs) = ground (arith, remove_lem fd j xs)

above : (n : ℕ) (xs : List ℕ) → total xs < n → is_in n xs ≡ false
above n [] h = refl
above n (x ∷ xs) h = ground (arith, h, above n xs (omega (arith, h)))

abbrev new : List ℕ → ℕ
new w = suc (total w)

abbrev kernel : Kernel (List ℕ)
kernel = record {
  epoll_create = λ w. (true, w);
  interruptions = λ w. 0;
  interrupted_wait = λ n w. w;
  epoll_wait = λ n w. (some [], w);
  epoll_ctl = λ c fd e w. (true, w);
  fcntl_getfl = λ fd w. (some 0, w);
  fcntl_setfl = λ fd flags w. (true, w);
  close_operation = λ fd w. (true, w);
}

abbrev processes : Processes (List ℕ)
processes = record {
  pipe = λ w. (some (new w, suc (new w)), new w ∷ suc (new w) ∷ w);
  fork = λ w. (some 100, w);
  pidfd_open = λ pid w. (some (new w), new w ∷ w);
  kill = λ pid w. (tt, w);
  close = λ fd w. (true, remove fd w);
  waitpid = λ pid w. (pid, w);
}

no_pipe :
    (w : List ℕ) → (processes.pipe w).0 ≡ none → (j : ℕ) → is_in j (processes.pipe w).1 ≡ is_in j w
no_pipe w e j = absurd (cc e)

no_pidfd :
    (pid : ℕ) (w : List ℕ)
    → (processes.pidfd_open pid w).0 ≡ none
    → (j : ℕ) → is_in j (processes.pidfd_open pid w).1 ≡ is_in j w
no_pidfd pid w e j = absurd (cc e)

piped :
    (p : ℕ × ℕ) (w : List ℕ)
    → (processes.pipe w).0 ≡ some p
    → (is_in p.0 w ≡ false)
      × (is_in p.1 w ≡ false)
      × ((p.0 == p.1) ≡ false)
      × ((j : ℕ) → is_in j (processes.pipe w).1 ≡ (is_in j (p.0 ∷ p.1 ∷ []) || is_in j w))
piped p w e =
    let first : new w ≡ p.0 = cc e in
    let second : suc (new w) ≡ p.1 = cc e in
    (
      rw⁻¹ first (above (new w) w (omega arith)),
      rw⁻¹ second (above (suc (new w)) w (omega arith)),
      ground (arith, first, second),
      λ j. rw (← first, ← second) (ground arith),
    )

given :
    (pid fd : ℕ) (w : List ℕ)
    → (processes.pidfd_open pid w).0 ≡ some fd
    → (is_in fd w ≡ false)
      × ((j : ℕ) → is_in j (processes.pidfd_open pid w).1 ≡ ((fd == j) || is_in j w))
given pid fd w e =
    let first : new w ≡ fd = cc e in
    (rw⁻¹ first (above (new w) w (omega arith)), λ j. rw (← first) refl)

abbrev tracking : TracksProcesses kernel processes
tracking = record {
  is_open = λ w j. is_in j w;
  by_fcntl = λ fd flags w j. (refl, refl);
  by_ctl = λ c fd e w j. refl;
  by_close = λ fd w open_now j. remove_lem fd j w;
  by_pipe = piped;
  by_no_pipe = no_pipe;
  by_pidfd = given;
  by_no_pidfd = no_pidfd;
  by_fork = λ w j. refl;
  by_kill = λ pid w j. refl;
}

-- Two descriptors are open before.
abbrev idle : IoContext (List ℕ) ℕ
idle = record { m_managed_fd = []; objects = λ a. unallocated; fresh = 0; kernel = 1 ∷ 4 ∷ [] }

execute-Post_example :
    Post
      (Started tracking (1 ∷ 4 ∷ []))
      (Unchanged tracking (1 ∷ 4 ∷ []))
      (execute kernel processes idle)
execute-Post_example = execute-Post tracking idle
