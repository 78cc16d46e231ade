-- ===== src/Command/Accounting.antt =====
-- The descriptors that `AsyncCommand::execute` of src/async_command.cc leaves open.
use mathlib.Core.List.{append-nil}
use shared_state_async.Prelude.{ℕ, ◌+◌, Option, none, some, List, [], ◌∷◌, ◌≡◌, ◌∙◌, refl, arith}
use shared_state_async.Errors.{Result, fail, errno}
use shared_state_async.Wire.Io.{lift, ◌>>=◌}
use shared_state_async.EventLoop.{IoContext, Kernel, attach, attach_readonly, attach_write_only}
use shared_state_async.EventLoop.Counting.{close_all}
use shared_state_async.Command.{
  Processes, AsyncCommand, manage_command, in_parent, after_fork, after_second_pipe,
  after_first_pipe, execute, all_ends,
}
use shared_state_async.Command.Descriptors.{
  Post, Post-continue, TracksProcesses, Opens, Opens-same, Opens-open, Opens-pipe, reordered, State,
  close_all-State, managed_fd-State, attach-IsAttachment, attach_readonly-IsAttachment,
  attach_write_only-IsAttachment,
}

-- So many more after a call that has given something.
abbrev pub opened : {A : Type 0} → ℕ → Option A → ℕ → ℕ
opened more none n = n
opened more (some a) n = n + more

module _ {W Op : Type 0} {k : Kernel W} {os : Processes W} (law : TracksProcesses k os) where
  -- A command that was started in this world: beside what was open, just the three descriptors that
  -- its objects hold are, one for the process, the end for reading of the second pipe as its output
  -- and the end for writing of the first as its input.
  pub record Started (w : W) (cmd : AsyncCommand) (s : IoContext W Op) : Type 0 where
    pub to_child : ℕ × ℕ
    pub from_child : ℕ × ℕ
    pub process_fd : ℕ
    pub out_afd : ℕ
    pub in_afd : ℕ
    pub first_pipe : (os.pipe w).0 ≡ some to_child
    pub second_pipe : (os.pipe (os.pipe w).1).0 ≡ some from_child
    pub only : Opens law (law.is_open w) (process_fd ∷ from_child.0 ∷ to_child.1 ∷ []) s.kernel
    pub output : cmd.m_std_out ≡ some out_afd
    pub input : cmd.m_std_in ≡ some in_afd
    pub of_process : (s.objects cmd.afd).m_fd ≡ some process_fd
    pub of_output : (s.objects out_afd).m_fd ≡ some from_child.0
    pub of_input : (s.objects in_afd).m_fd ≡ some to_child.1

  -- Just what was open is.
  abbrev pub Unchanged : W → IoContext W Op → Type 0
  Unchanged w s = (j : ℕ) → law.is_open s.kernel j ≡ law.is_open w j

  abbrev Outcome : W → Result AsyncCommand × IoContext W Op → Type 0
  Outcome w = Post (Started w) (Unchanged w)

  module _ (w : W) where
    abbrev Now : List ℕ → List (ℕ × ℕ) → IoContext W Op → Type 0
    Now = State law (law.is_open w)

    closed_all :
        (fds : List ℕ) (s : IoContext W Op)
        → Now fds [] s
        → Outcome w ((close_all os.close fds >>= λ u. lift (fail errno)) s)
    closed_all fds s h =
        Post-continue (λ (u : Unit {0}). Now [] []) (Started w) (Unchanged w) _ _ _
          (close_all-State law (law.is_open w) fds [] [] (Unchanged w) s (rw (append-nil fds) h))
          λ u t e. e.0.1

    -- The ends of both pipes and the descriptor of the process are open.
    manage_command-Outcome :
        (p q : ℕ × ℕ) (pid fd : ℕ) (s : IoContext W Op)
        → (os.pipe w).0 ≡ some p
        → (os.pipe (os.pipe w).1).0 ≡ some q
        → Now (p.0 ∷ q.1 ∷ fd ∷ q.0 ∷ p.1 ∷ []) [] s
        → Outcome w (manage_command k os p q pid fd s)
    unfolding manage_command
    manage_command-Outcome p q pid fd s hp hq h =
        let fds = p.0 ∷ q.1 ∷ fd ∷ q.0 ∷ p.1 ∷ [] in
        Post-continue (λ a. Now fds ((a, fd) ∷ [])) (Started w) (Unchanged w) _ _ _
          (managed_fd-State law (law.is_open w) (attach k) fd fds [] (Unchanged w) s
            (attach-IsAttachment law (law.is_open w)) h)
          λ a s₁ h₁.
            Post-continue (λ b. Now fds ((b, q.0) ∷ (a, fd) ∷ [])) (Started w) (Unchanged w) _ _ _
              (managed_fd-State law (law.is_open w) (attach_readonly k) q.0 fds ((a, fd) ∷ [])
                (Unchanged w) s₁ (attach_readonly-IsAttachment law (law.is_open w)) h₁)
              λ b s₂ h₂.
                Post-continue (λ c. Now fds ((c, p.1) ∷ (b, q.0) ∷ (a, fd) ∷ [])) (Started w)
                  (Unchanged w) _ _ _
                  (managed_fd-State law (law.is_open w) (attach_write_only k) p.1 fds
                    ((b, q.0) ∷ (a, fd) ∷ []) (Unchanged w) s₂
                    (attach_write_only-IsAttachment law (law.is_open w)) h₂)
                  λ c s₃ h₃.
                    Post-continue
                      (λ (u : Unit {0}).
                        Now (fd ∷ q.0 ∷ p.1 ∷ []) ((c, p.1) ∷ (b, q.0) ∷ (a, fd) ∷ []))
                      (Started w) (Unchanged w) _ _ _
                      (close_all-State law (law.is_open w) (p.0 ∷ q.1 ∷ []) (fd ∷ q.0 ∷ p.1 ∷ [])
                        ((c, p.1) ∷ (b, q.0) ∷ (a, fd) ∷ []) (Unchanged w) s₃ h₃)
                      λ u s₄ h₄. record {
                        to_child = p;
                        from_child = q;
                        process_fd = fd;
                        out_afd = b;
                        in_afd = c;
                        first_pipe = hp;
                        second_pipe = hq;
                        only = h₄.0;
                        output = refl;
                        input = refl;
                        of_process = h₄.1.1.1.0.1;
                        of_output = h₄.1.1.0.1;
                        of_input = h₄.1.0.1;
                      }

    in_parent-Outcome :
        (p q : ℕ × ℕ) (pid : ℕ) (o : Option ℕ) (s : IoContext W Op)
        → (os.pipe w).0 ≡ some p
        → (os.pipe (os.pipe w).1).0 ≡ some q
        → (os.pidfd_open pid s.kernel).0 ≡ o
        → Now (q.0 ∷ q.1 ∷ p.0 ∷ p.1 ∷ []) [] s
        → Outcome w
            (in_parent k os p q pid o (record s { kernel = (os.pidfd_open pid s.kernel).1 }))
    unfolding in_parent
    in_parent-Outcome p q pid none s hp hq e h =
        let v = (os.pidfd_open pid s.kernel).1 in
        let four = q.0 ∷ q.1 ∷ p.0 ∷ p.1 ∷ [] in
        let same =
          Opens-same law (law.is_open w) four s.kernel v (law.by_no_pidfd pid s.kernel e) h.0 in
        Post-continue (λ (u : Unit {0}). Now [] []) (Started w) (Unchanged w) _ _ _
          (close_all-State law (law.is_open w) (all_ends p q) [] [] (Unchanged w)
            (record s { kernel = v })
            (
              reordered law (law.is_open w) four (all_ends p q) v (λ j. ground arith)
                  (ground (arith, same.0)) same,
              tt,
            ))
          λ u t i j. law.by_kill pid t.kernel j ∙ i.0.1 j
    in_parent-Outcome p q pid (some fd) s hp hq e h =
        let v = (os.pidfd_open pid s.kernel).1 in
        let new = law.by_pidfd pid fd s.kernel e in
        let four = q.0 ∷ q.1 ∷ p.0 ∷ p.1 ∷ [] in
        let five = p.0 ∷ q.1 ∷ fd ∷ q.0 ∷ p.1 ∷ [] in
        let more : Opens law (law.is_open w) (fd ∷ four) v =
          Opens-open law (law.is_open w) fd four s.kernel v new.0 new.1 h.0 in
        manage_command-Outcome p q pid fd (record s { kernel = v }) hp hq
          (
            reordered law (law.is_open w) (fd ∷ four) five v (λ j. ground arith)
                (ground (arith, more.0)) more,
            tt,
          )

    after_fork-Outcome :
        (p q : ℕ × ℕ) (o : Option ℕ) (s : IoContext W Op)
        → (os.pipe w).0 ≡ some p
        → (os.pipe (os.pipe w).1).0 ≡ some q
        → Now (q.0 ∷ q.1 ∷ p.0 ∷ p.1 ∷ []) [] s
        → Outcome w (after_fork k os p q o s)
    unfolding after_fork
    after_fork-Outcome p q none s hp hq h =
        let four = q.0 ∷ q.1 ∷ p.0 ∷ p.1 ∷ [] in
        closed_all (all_ends p q) s (
          reordered law (law.is_open w) four (all_ends p q) s.kernel (λ j. ground arith)
              (ground (arith, h.0.0)) h.0,
          tt,
        )
    after_fork-Outcome p q (some pid) s hp hq h =
        in_parent-Outcome p q pid (os.pidfd_open pid s.kernel).0 s hp hq refl h

    after_second_pipe-Outcome :
        (p : ℕ × ℕ) (o : Option (ℕ × ℕ)) (s : IoContext W Op)
        → (os.pipe w).0 ≡ some p
        → (os.pipe (os.pipe w).1).0 ≡ o
        → Opens law (law.is_open w) (p.0 ∷ p.1 ∷ []) (os.pipe w).1
        → Outcome w (after_second_pipe k os p o (record s { kernel = (os.pipe (os.pipe w).1).1 }))
    unfolding after_second_pipe
    after_second_pipe-Outcome p none s hp e h =
        let v = (os.pipe (os.pipe w).1).1 in
        let two = p.0 ∷ p.1 ∷ [] in
        let same = Opens-same law (law.is_open w) two (os.pipe w).1 v (law.by_no_pipe _ e) h in
        closed_all (p.1 ∷ p.0 ∷ []) (record s { kernel = v })
          (
            reordered law (law.is_open w) two (p.1 ∷ p.0 ∷ []) v (λ j. ground arith)
                (ground (arith, same.0)) same,
            tt,
          )
    after_second_pipe-Outcome p (some q) s hp e h =
        let v = (os.pipe (os.pipe w).1).1 in
        let four = q.0 ∷ q.1 ∷ p.0 ∷ p.1 ∷ [] in
        let made = Opens-pipe law (law.is_open w) q (p.0 ∷ p.1 ∷ []) (os.pipe w).1 e h in
        after_fork-Outcome p q (os.fork v).0 (record s { kernel = (os.fork v).1 }) hp e
          (Opens-same law (law.is_open w) four v (os.fork v).1 (law.by_fork v) made, tt)

    after_first_pipe-Outcome :
        (o : Option (ℕ × ℕ)) (s : IoContext W Op)
        → (os.pipe w).0 ≡ o
        → Outcome w (after_first_pipe k os o (record s { kernel = (os.pipe w).1 }))
    unfolding after_first_pipe
    after_first_pipe-Outcome none s e = law.by_no_pipe w e
    after_first_pipe-Outcome (some p) s e =
        after_second_pipe-Outcome p (os.pipe (os.pipe w).1).0 s e refl
          (Opens-pipe law (law.is_open w) p [] w e (tt, λ j. refl))

  -- Where the calls of the kernel open and close descriptors as they document: starting a command,
  -- whichever of its calls fails, leaves just the descriptors open that were if it reports a failure.
  -- A success leaves three more, which the objects of the command hold: the descriptor of the
  -- process, the end for reading of the second pipe as its output, and the end for writing of the
  -- first as its input.
  pub execute-Post :
      (s : IoContext W Op) → Post (Started s.kernel) (Unchanged s.kernel) (execute k os s)
  unfolding execute
  execute-Post s = after_first_pipe-Outcome s.kernel (os.pipe s.kernel).0 s refl
