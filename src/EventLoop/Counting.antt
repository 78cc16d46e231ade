-- ===== src/EventLoop/Counting.antt =====
-- How many descriptors a process has open: what the calls of the kernel change of this number, and
-- what a coroutine leaves of it.
use Prim.Native.Nat.{bit_or}
use shared_state_async.Prelude.{
  ℕ, ◌+◌, ◌-◌, Bool, Option, List, [], ◌∷◌, length, ◌≡◌, ◌∙◌, arith, Bool-cases, Option-cases, inl,
  inr,
}
use shared_state_async.Errors.{Result, ok, fail, throw, crash}
use shared_state_async.Wire.Io.{Io, continue, ◌>>=◌}
use shared_state_async.EventLoop.{
  o_nonblock, Events, IoContext, Kernel, Control, register_fd, attach, attach_readonly,
  attach_write_only, manage, control, change,
}

module _ {W Op : Type 0} where
  -- A call of the kernel by itself.
  abbrev pub in_kernel : {A : Type 0} → (W → A × W) → Io (IoContext W Op) A
  in_kernel m s = (ok (m s.kernel).0, record s { kernel = (m s.kernel).1 })

  unfoldable pub close_all : (ℕ → W → Bool × W) → List ℕ → Io (IoContext W Op) (Unit {0})
  close_all close [] s = (ok tt, s)
  close_all close (fd ∷ fds) s = (in_kernel (close fd) >>= λ closed. close_all close fds) s

-- A failure that cannot be reported ends the process.
abbrev pub or_exit : {A : Type 0} → Result A → Result A
or_exit (ok a) = ok a
or_exit (fail e) = crash
or_exit throw = throw
or_exit crash = crash

-- `registerFD` without `errbub`, and the attachment that follows.
module _ {W Op : Type 0} (k : Kernel W) where
  unfoldable pub managed_fd : (ℕ → IoContext W Op → IoContext W Op) → ℕ → Io (IoContext W Op) ℕ
  managed_fd attachment fd s =
      continue (or_exit (register_fd k fd s).0) (λ a u. (ok a, attachment a u))
        (register_fd k fd s).1

-- The number of open descriptors, which the calls on those that are open do not change.
pub record CountsOpen {W : Type 0} (k : Kernel W) (close : ℕ → W → Bool × W) : Type 0 where
  pub open_fds : W → ℕ
  pub by_fcntl :
      (fd flags : ℕ) (w : W)
      → (open_fds (k.fcntl_getfl fd w).1 ≡ open_fds w)
        × (open_fds (k.fcntl_setfl fd flags w).1 ≡ open_fds w)
  pub by_ctl :
      (c : Control) (fd : Option ℕ) (e : Events) (w : W)
      → open_fds (k.epoll_ctl c fd e w).1 ≡ open_fds w
  pub by_close : (fd : ℕ) (w : W) → open_fds (close fd w).1 ≡ open_fds w - 1

-- How many are open after a success and after a failure that is reported.
abbrev pub Leaves : {W Op A : Type 0} → (W → ℕ) → ℕ → ℕ → Result A × IoContext W Op → Type 0
Leaves count good bad (ok a, s) = count s.kernel ≡ good
Leaves count good bad (fail e, s) = count s.kernel ≡ bad
Leaves count good bad (throw, s) = Unit
Leaves count good bad (crash, s) = Unit

module _ {W Op : Type 0} (count : W → ℕ) where
  pub Leaves-continue :
      {A B : Type 0} (before after bad : ℕ) (r : Result A) (s : IoContext W Op)
      (f : A → Io (IoContext W Op) B)
      → Leaves count before bad (r, s)
      → ((a : A) (u : IoContext W Op) → count u.kernel ≡ before → Leaves count after bad (f a u))
      → Leaves count after bad (continue r f s)
  Leaves-continue before after bad (ok a) s f h step = step a s h
  Leaves-continue before after bad (fail e) s f h step = h
  Leaves-continue before after bad throw s f h step = tt
  Leaves-continue before after bad crash s f h step = tt

module _ {W Op : Type 0} {k : Kernel W} {close : ℕ → W → Bool × W} (law : CountsOpen k close) where
  pub close_all-Leaves :
      (fds : List ℕ) (n bad : ℕ) (s : IoContext W Op)
      → law.open_fds s.kernel ≡ n + length fds
      → Leaves law.open_fds n bad (close_all close fds s)
  unfolding close_all
  close_all-Leaves [] n bad s h = omega (arith, h)
  close_all-Leaves (fd ∷ fds) n bad s h =
      close_all-Leaves fds n bad (record s { kernel = (close fd s.kernel).1 })
        (omega (arith, law.by_close fd s.kernel, h))

  pub register_fd-open :
      (fd : ℕ) (s : IoContext W Op)
      → law.open_fds (register_fd k fd s).1.kernel ≡ law.open_fds s.kernel
  unfolding register_fd manage
  register_fd-open fd s =
      let g = k.fcntl_getfl fd s.kernel in
      elim (Option-cases g.0) [
        | inl e ↦ rw (e, register_fd) (law.by_fcntl fd 0 s.kernel).0
        | inr (f, e) ↦
            let c = k.fcntl_setfl fd (bit_or f o_nonblock) g.1 in
            let same =
              (law.by_fcntl fd (bit_or f o_nonblock) g.1).1 ∙ (law.by_fcntl fd 0 s.kernel).0 in
            elim (Bool-cases c.0) [
              | inl t ↦ rw (e, register_fd, t) same
              | inr t ↦ rw (e, register_fd, t) same
            ]
      ]

  -- The attachments of `IOContext` keep the number.
  abbrev pub KeepsOpen : (ℕ → IoContext W Op → IoContext W Op) → Type 0
  KeepsOpen f = (a : ℕ) (s : IoContext W Op) → law.open_fds (f a s).kernel ≡ law.open_fds s.kernel

  pub attach-KeepsOpen : KeepsOpen (attach k)
  unfolding attach control change
  attach-KeepsOpen a s = law.by_ctl _ _ _ _

  pub attach_readonly-KeepsOpen : KeepsOpen (attach_readonly k)
  unfolding attach_readonly control change
  attach_readonly-KeepsOpen a s = law.by_ctl _ _ _ _

  pub attach_write_only-KeepsOpen : KeepsOpen (attach_write_only k)
  unfolding attach_write_only control change
  attach_write_only-KeepsOpen a s = law.by_ctl _ _ _ _

  managed_result :
      (r : Result ℕ) (s : IoContext W Op) (f : ℕ → IoContext W Op → IoContext W Op) (n bad : ℕ)
      → KeepsOpen f
      → law.open_fds s.kernel ≡ n
      → Leaves law.open_fds n bad (continue (or_exit r) (λ a u. (ok a, f a u)) s)
  managed_result (ok a) s f n bad keep h = keep a s ∙ h
  managed_result (fail e) s f n bad keep h = tt
  managed_result throw s f n bad keep h = tt
  managed_result crash s f n bad keep h = tt

  pub managed_fd-Leaves :
      (f : ℕ → IoContext W Op → IoContext W Op) (fd n bad : ℕ) (s : IoContext W Op)
      → KeepsOpen f
      → law.open_fds s.kernel ≡ n
      → Leaves law.open_fds n bad (managed_fd k f fd s)
  unfolding managed_fd
  managed_fd-Leaves f fd n bad s keep h =
      managed_result (register_fd k fd s).0 (register_fd k fd s).1 f n bad keep
        (register_fd-open fd s ∙ h)
