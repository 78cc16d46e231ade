-- ===== src/Command/Descriptors.antt =====
-- Sets of open descriptors, and the objects that hold some of them, for `AsyncCommand::execute` of
-- src/async_command.cc.
use Prim.Native.Nat.{bit_or}
use shared_state_async.Prelude.{
  ℕ, suc, ◌<◌, Bool, true, false, ◌||◌, Option, none, some, List, [], ◌∷◌, ◌==◌, if◌then◌else◌, ◌≡◌,
  ◌∙◌, refl, sym, ap, arith, All, ◌++◌, Option-cases, Bool-cases, inl, inr,
}
use shared_state_async.Errors.{Result, ok, fail, throw, crash}
use shared_state_async.Wire.Io.{Io, continue}
use shared_state_async.EventLoop.{
  o_nonblock, Control, Events, IoContext, Kernel, register_fd, manage, attach, attach_readonly,
  attach_write_only, control, change,
}
use shared_state_async.EventLoop.Counting.{close_all, managed_fd, or_exit}
use shared_state_async.Command.{Processes}

abbrev pub is_in : ℕ → List ℕ → Bool
is_in j [] = false
is_in j (fd ∷ fds) = (fd == j) || is_in j fds

-- What a coroutine leaves after a success and after a failure that is reported.
abbrev pub Post : {S A : Type 0} → (A → S → Type 0) → (S → Type 0) → Result A × S → Type 0
Post good bad (ok a, s) = good a s
Post good bad (fail e, s) = bad s
Post good bad (throw, s) = Unit
Post good bad (crash, s) = Unit

pub Post-continue :
    {S A B : Type 0} (mid : A → S → Type 0) (good : B → S → Type 0) (bad : S → Type 0)
    (r : Result A) (s : S) (f : A → Io S B)
    → Post mid bad (r, s)
    → ((a : A) (u : S) → mid a u → Post good bad (f a u))
    → Post good bad (continue r f s)
Post-continue mid good bad (ok a) s f h step = step a s h
Post-continue mid good bad (fail e) s f h step = h
Post-continue mid good bad throw s f h step = tt
Post-continue mid good bad crash s f h step = tt

-- Which descriptors the process has open, and what the calls document of it: the descriptors that
-- a call gives were not open, and a descriptor that is open is closed by `close`.
pub record TracksProcesses {W : Type 0} (k : Kernel W) (os : Processes W) : Type 0 where
  pub is_open : W → ℕ → Bool
  pub by_fcntl :
      (fd flags : ℕ) (w : W) (j : ℕ)
      → (is_open (k.fcntl_getfl fd w).1 j ≡ is_open w j)
        × (is_open (k.fcntl_setfl fd flags w).1 j ≡ is_open w j)
  pub by_ctl :
      (c : Control) (fd : Option ℕ) (e : Events) (w : W) (j : ℕ)
      → is_open (k.epoll_ctl c fd e w).1 j ≡ is_open w j
  pub by_close :
      (fd : ℕ) (w : W)
      → is_open w fd ≡ true
      → (j : ℕ) → is_open (os.close fd w).1 j ≡ (if fd == j then false else is_open w j)
  pub by_pipe :
      (p : ℕ × ℕ) (w : W)
      → (os.pipe w).0 ≡ some p
      → (is_open w p.0 ≡ false)
        × (is_open w p.1 ≡ false)
        × ((p.0 == p.1) ≡ false)
        × ((j : ℕ) → is_open (os.pipe w).1 j ≡ (is_in j (p.0 ∷ p.1 ∷ []) || is_open w j))
  pub by_no_pipe : (w : W) → (os.pipe w).0 ≡ none → (j : ℕ) → is_open (os.pipe w).1 j ≡ is_open w j
  pub by_pidfd :
      (pid fd : ℕ) (w : W)
      → (os.pidfd_open pid w).0 ≡ some fd
      → (is_open w fd ≡ false)
        × ((j : ℕ) → is_open (os.pidfd_open pid w).1 j ≡ ((fd == j) || is_open w j))
  pub by_no_pidfd :
      (pid : ℕ) (w : W)
      → (os.pidfd_open pid w).0 ≡ none
      → (j : ℕ) → is_open (os.pidfd_open pid w).1 j ≡ is_open w j
  pub by_fork : (w : W) (j : ℕ) → is_open (os.fork w).1 j ≡ is_open w j
  pub by_kill : (pid : ℕ) (w : W) (j : ℕ) → is_open (os.kill pid w).1 j ≡ is_open w j

module _ {W : Type 0} {k : Kernel W} {os : Processes W} (law : TracksProcesses k os)
    (before : ℕ → Bool) where
  -- New descriptors, each listed once.
  abbrev pub AreNew : List ℕ → Type 0
  AreNew [] = Unit
  AreNew (fd ∷ fds) = (before fd ≡ false) × (is_in fd fds ≡ false) × AreNew fds

  -- Just these are open beside those that were before.
  abbrev pub Opens : List ℕ → W → Type 0
  Opens fds w = AreNew fds × ((j : ℕ) → law.is_open w j ≡ (is_in j fds || before j))

  pub Opens-same :
      (fds : List ℕ) (w w' : W)
      → ((j : ℕ) → law.is_open w' j ≡ law.is_open w j)
      → Opens fds w
      → Opens fds w'
  Opens-same fds w w' same h = (h.0, λ j. same j ∙ h.1 j)

  -- The same descriptors in another order.
  pub reordered :
      (fds fds' : List ℕ) (v : W)
      → ((j : ℕ) → is_in j fds ≡ is_in j fds')
      → AreNew fds'
      → Opens fds v
      → Opens fds' v
  reordered fds fds' v same new h = (new, λ j. ground (arith, h.1 j, same j))

  pub Opens-open :
      (fd : ℕ) (fds : List ℕ) (w w' : W)
      → law.is_open w fd ≡ false
      → ((j : ℕ) → law.is_open w' j ≡ ((fd == j) || law.is_open w j))
      → Opens fds w
      → Opens (fd ∷ fds) w'
  Opens-open fd fds w w' closed now h = (
    (ground (arith, h.1 fd, closed), ground (arith, h.1 fd, closed), h.0),
    λ j. ground (arith, now j, h.1 j),
  )

  pub Opens-pipe :
      (p : ℕ × ℕ) (fds : List ℕ) (w : W)
      → (os.pipe w).0 ≡ some p
      → Opens fds w
      → Opens (p.0 ∷ p.1 ∷ fds) (os.pipe w).1
  Opens-pipe p fds w e h =
      let new = law.by_pipe p w e in
      (
        (
          ground (arith, h.1 p.0, new.0),
          ground (arith, h.1 p.0, new.0, new.2),
          (ground (arith, h.1 p.1, new.1), ground (arith, h.1 p.1, new.1), h.0),
        ),
        λ j. ground (arith, new.3 j, h.1 j),
      )

  pub Opens-close :
      (fd : ℕ) (fds : List ℕ) (w : W) → Opens (fd ∷ fds) w → Opens fds (os.close fd w).1
  Opens-close fd fds w h =
      let open_now : law.is_open w fd ≡ true = ground (arith, h.1 fd) in
      (h.0.2, λ j. ground (arith, law.by_close fd w open_now j, h.1 j, h.0.0, h.0.1))

module _ {W Op : Type 0} {k : Kernel W} {os : Processes W} (law : TracksProcesses k os)
    (before : ℕ → Bool) where
  -- An object that was allocated has this open descriptor.
  abbrev pub Holds : IoContext W Op → ℕ × ℕ → Type 0
  Holds s item = (item.0 < s.fresh) × ((s.objects item.0).m_fd ≡ some item.1)

  -- What is open, and which objects hold some of it.
  abbrev pub State : List ℕ → List (ℕ × ℕ) → IoContext W Op → Type 0
  State fds held s = Opens law before fds s.kernel × All (Holds s) held

  pub close_all-State :
      (fds rest : List ℕ) (held : List (ℕ × ℕ)) (bad : IoContext W Op → Type 0) (s : IoContext W Op)
      → State (fds ++ rest) held s
      → Post (λ (u : Unit {0}). State rest held) bad (close_all os.close fds s)
  unfolding close_all
  close_all-State [] rest held bad s h = h
  close_all-State (fd ∷ fds) rest held bad s h =
      close_all-State fds rest held bad (record s { kernel = (os.close fd s.kernel).1 })
        (Opens-close law before fd (fds ++ rest) s.kernel h.0, h.1)

  register_fd-open :
      (fd : ℕ) (s : IoContext W Op) (j : ℕ)
      → law.is_open (register_fd k fd s).1.kernel j ≡ law.is_open s.kernel j
  unfolding register_fd manage
  register_fd-open fd s j =
      let g = k.fcntl_getfl fd s.kernel in
      elim (Option-cases g.0) [
        | inl e ↦ rw (e, register_fd) (law.by_fcntl fd 0 s.kernel j).0
        | inr (f, e) ↦
            let c = k.fcntl_setfl fd (bit_or f o_nonblock) g.1 in
            let same =
              (law.by_fcntl fd (bit_or f o_nonblock) g.1 j).1 ∙ (law.by_fcntl fd 0 s.kernel j).0 in
            elim (Bool-cases c.0) [
              | inl t ↦ rw (e, register_fd, t) same
              | inr t ↦ rw (e, register_fd, t) same
            ]
      ]

  -- A registration that succeeds takes a new address.
  register_fd-Holds :
      (fd a : ℕ) (s : IoContext W Op)
      → (register_fd k fd s).0 ≡ ok a
      → (a ≡ s.fresh)
        × ((register_fd k fd s).1.fresh ≡ suc s.fresh)
        × (((register_fd k fd s).1.objects a).m_fd ≡ some fd)
        × ((b : ℕ) → b < s.fresh → (register_fd k fd s).1.objects b ≡ s.objects b)
  unfolding register_fd manage
  register_fd-Holds fd a s =
      let g = k.fcntl_getfl fd s.kernel in
      elim (Option-cases g.0) [
        | inl unknown ↦ rw (unknown, register_fd) (λ e. absurd (cc))
        | inr (f, flags) ↦
            let r = k.fcntl_setfl fd (bit_or f o_nonblock) g.1 in
            elim (Bool-cases r.0) [
              | inl set ↦
                  rw (flags, register_fd, set)
                    (λ e.
                      let new : s.fresh ≡ a = ground (arith, e) in
                      (sym new, refl, ground (arith, new), λ b l. ground (arith, l)))
              | inr failed ↦ rw (flags, register_fd, failed) (λ e. absurd (cc))
            ]
      ]

  All-Holds :
      (s t : IoContext W Op)
      → ((item : ℕ × ℕ) → Holds s item → Holds t item)
      → (held : List (ℕ × ℕ)) → All (Holds s) held
      → All (Holds t) held
  All-Holds s t step [] h = tt
  All-Holds s t step (item ∷ held) h = (step item h.0, All-Holds s t step held h.1)

  -- An attachment keeps what is open and what the objects hold.
  pub record IsAttachment (f : ℕ → IoContext W Op → IoContext W Op) : Type 0 where
    pub keeps_open :
        (a : ℕ) (s : IoContext W Op) (j : ℕ) → law.is_open (f a s).kernel j ≡ law.is_open s.kernel j
    pub keeps_held : (a : ℕ) (s : IoContext W Op) (item : ℕ × ℕ) → Holds s item → Holds (f a s) item

  pub attach-IsAttachment : IsAttachment (attach k)
  unfolding attach control change
  attach-IsAttachment = record {
    keeps_open = λ a s j. law.by_ctl _ _ _ _ j;
    keeps_held = λ a s item h. (h.0, ground (arith, h.1));
  }

  pub attach_readonly-IsAttachment : IsAttachment (attach_readonly k)
  unfolding attach_readonly control change
  attach_readonly-IsAttachment = record {
    keeps_open = λ a s j. law.by_ctl _ _ _ _ j;
    keeps_held = λ a s item h. (h.0, ground (arith, h.1));
  }

  pub attach_write_only-IsAttachment : IsAttachment (attach_write_only k)
  unfolding attach_write_only control change
  attach_write_only-IsAttachment = record {
    keeps_open = λ a s j. law.by_ctl _ _ _ _ j;
    keeps_held = λ a s item h. (h.0, ground (arith, h.1));
  }

  managed_result :
      (f : ℕ → IoContext W Op → IoContext W Op) (fd : ℕ) (fds : List ℕ) (held : List (ℕ × ℕ))
      (bad : IoContext W Op → Type 0) (s : IoContext W Op) (r : Result ℕ)
      → IsAttachment f
      → State fds held s
      → (register_fd k fd s).0 ≡ r
      → Post
          (λ a. State fds ((a, fd) ∷ held))
          bad
          (continue (or_exit r) (λ a u. (ok a, f a u)) (register_fd k fd s).1)
  managed_result f fd fds held bad s (ok a) att h e =
      let t = (register_fd k fd s).1 in
      let new = register_fd-Holds fd a s e in
      (
        Opens-same law before fds s.kernel (f a t).kernel
            (λ j. att.keeps_open a t j ∙ register_fd-open fd s j) h.0,
        (
          att.keeps_held a t (a, fd) (omega (arith, new.0, new.1), new.2),
          All-Holds s (f a t)
              (λ item i.
                att.keeps_held a t item
                  (omega (arith, new.1, i.0), ap (λ afd. afd.m_fd) (new.3 item.0 i.0) ∙ i.1))
              held h.1,
        ),
      )
  managed_result f fd fds held bad s (fail e) att h same = tt
  managed_result f fd fds held bad s throw att h same = tt
  managed_result f fd fds held bad s crash att h same = tt

  pub managed_fd-State :
      (f : ℕ → IoContext W Op → IoContext W Op) (fd : ℕ) (fds : List ℕ) (held : List (ℕ × ℕ))
      (bad : IoContext W Op → Type 0) (s : IoContext W Op)
      → IsAttachment f
      → State fds held s
      → Post (λ a. State fds ((a, fd) ∷ held)) bad (managed_fd k f fd s)
  unfolding managed_fd
  managed_fd-State f fd fds held bad s att h =
      managed_result f fd fds held bad s (register_fd k fd s).0 att h refl
