-- ===== src/EventLoop.antt =====
-- The event loop: `IOContext` of include/io_context.hh and src/io_context.cc, over the objects of
-- `AsyncFileDescriptor` of include/async_file_descriptor.hh.
pub mod Turn
pub mod Resuming
pub mod Interest
pub mod Managed
pub mod Steps
pub mod Rounds
pub mod Counting
pub mod Text
use Prim.Native.Nat.{bit_or}
use shared_state_async.Prelude.{
  ℕ, zero, suc, Bool, true, false, Option, none, some, List, [], ◌∷◌, ◌++◌, length, ◌==◌, ◌&&◌,
  if◌then◌else◌,
}
use shared_state_async.Prelude.Map.{Map, lookup, insert, erase, nat_key}
use shared_state_async.Errors.{
  Result, ok, fail, throw, crash, invalid_argument, no_such_file_or_directory,
  state_not_recoverable, errno,
}
use shared_state_async.Wire.Io.{Io}

-- The flags of an `epoll_event` that the code sets.
pub record Events : Type 0 where
  pub epollin : Bool
  pub epollout : Bool
  pub epollet : Bool

abbrev pub no_events : Events
no_events = record { epollin = false; epollout = false; epollet = false }

abbrev pub read_events : Events
read_events = record { epollin = true; epollout = false; epollet = true }

abbrev pub write_events : Events
write_events = record { epollin = false; epollout = true; epollet = true }

abbrev pub same : Bool → Bool → Bool
same true b = b
same false true = false
same false false = true

unfoldable pub events_eq : Events → Events → Bool
events_eq a b = same a.epollin b.epollin && (same a.epollout b.epollout && same a.epollet b.epollet)

-- `m_fd` is `none` for -1; an operation is the handle of the coroutine that waits for it.
pub record AsyncFileDescriptor (Op : Type 0) : Type 0 where
  pub m_fd : Option ℕ
  pub m_io_state : Events
  pub m_next_io_state : Events
  pub m_pending_ops : List Op

pub data Control : Type 0 where
  epoll_ctl_add epoll_ctl_mod epoll_ctl_del : Control

-- The kernel. A Boolean says whether a call succeeds. Signals interrupt the next wait for events
-- `interruptions` times, each a call that gives EINTR, before `epoll_wait` gives the descriptors that
-- have events or another error. `close_operation` is one awaited `CloseOperation`, which never
-- suspends.
pub record Kernel (W : Type 0) : Type 0 where
  pub epoll_create : W → Bool × W
  pub interruptions : W → ℕ
  pub interrupted_wait : ℕ → W → W
  pub epoll_wait : ℕ → W → Option (List ℕ) × W
  pub epoll_ctl : Control → Option ℕ → Events → W → Bool × W
  pub fcntl_getfl : ℕ → W → Option ℕ × W
  pub fcntl_setfl : ℕ → ℕ → W → Bool × W
  pub close_operation : Option ℕ → W → Bool × W

-- The context, the objects at their addresses, those below `fresh` being allocated, and the state
-- of the kernel. An object stays in its place when the last pointer to it is gone.
pub record IoContext (W Op : Type 0) : Type 0 where
  pub m_managed_fd : Map ℕ ℕ
  pub objects : ℕ → AsyncFileDescriptor Op
  pub fresh : ℕ
  pub kernel : W

abbrev pub default_max_events : ℕ
default_max_events = 20

-- `O_NONBLOCK`
abbrev pub o_nonblock : ℕ
o_nonblock = 2048

abbrev pub update {ℓ} : {A : Type ℓ} → (ℕ → A) → ℕ → A → ℕ → A
update f a x b = if a == b then x else f b

module _ {Op : Type 0} where
  abbrev pub with_io_state : Events → AsyncFileDescriptor Op → AsyncFileDescriptor Op
  with_io_state e afd = record afd { m_io_state = e }

  abbrev pub with_next_io_state :
      (Events → Events) → AsyncFileDescriptor Op → AsyncFileDescriptor Op
  with_next_io_state f afd = record afd { m_next_io_state = f afd.m_next_io_state }

  abbrev pub with_pending_ops :
      (List Op → List Op) → AsyncFileDescriptor Op → AsyncFileDescriptor Op
  with_pending_ops f afd = record afd { m_pending_ops = f afd.m_pending_ops }

  abbrev pub tail : List Op → List Op
  tail [] = []
  tail (op ∷ ops) = ops

  abbrev pub head : List Op → Option Op
  head [] = none
  head (op ∷ ops) = some op

abbrev erase_fd : Option ℕ → Map ℕ ℕ → Map ℕ ℕ
erase_fd none m = m
erase_fd (some fd) m = erase fd m

module _ {W Op : Type 0} where
  -- What is done to one object.
  unfoldable pub change :
      ℕ → (AsyncFileDescriptor Op → AsyncFileDescriptor Op) → IoContext W Op → IoContext W Op
  change a f s = record s { objects = update s.objects a (f (s.objects a)) }

  unfoldable pub watch_read : ℕ → IoContext W Op → IoContext W Op
  watch_read a = change a (with_next_io_state (λ e. record e { epollin = true }))

  unfoldable pub unwatch_read : ℕ → IoContext W Op → IoContext W Op
  unwatch_read a = change a (with_next_io_state (λ e. record e { epollin = false }))

  unfoldable pub watch_write : ℕ → IoContext W Op → IoContext W Op
  watch_write a = change a (with_next_io_state (λ e. record e { epollout = true }))

  unfoldable pub unwatch_write : ℕ → IoContext W Op → IoContext W Op
  unwatch_write a = change a (with_next_io_state (λ e. record e { epollout = false }))

  abbrev pub queue : ℕ → IoContext W Op → List Op
  queue a s = (s.objects a).m_pending_ops

  unfoldable pub add_pending_op : ℕ → Op → IoContext W Op → IoContext W Op
  unfolding change
  add_pending_op a op = change a (with_pending_ops (λ ops. ops ++ op ∷ []))

  unfoldable pub pop : ℕ → IoContext W Op → IoContext W Op
  unfolding change
  pop a = change a (with_pending_ops tail)

  -- `new AFD_T(fd, *this)`, and its place in the map
  unfoldable pub manage : ℕ → IoContext W Op → IoContext W Op
  manage fd s = record s {
    m_managed_fd = insert fd s.fresh s.m_managed_fd;
    objects = update s.objects s.fresh (record {
      m_fd = some fd;
      m_io_state = no_events;
      m_next_io_state = no_events;
      m_pending_ops = [];
    });
    fresh = suc s.fresh;
  }

  abbrev find : Option ℕ → IoContext W Op → Option ℕ
  find none s = none
  find (some fd) s = lookup fd s.m_managed_fd

  -- `aFD->mFD = -1; mManagedFD.erase(fdIt)`
  unfoldable pub forget : ℕ → IoContext W Op → IoContext W Op
  forget a s = record s {
    m_managed_fd = erase_fd (s.objects a).m_fd s.m_managed_fd;
    objects = update s.objects a (record (s.objects a) { m_fd = none });
  }

-- What an address holds before anything is allocated there.
abbrev pub unallocated : {Op : Type 0} → AsyncFileDescriptor Op
unallocated = record {
  m_fd = none;
  m_io_state = no_events;
  m_next_io_state = no_events;
  m_pending_ops = [];
}

module _ {W Op : Type 0} (k : Kernel W) where
  unfoldable pub setup : W → Result (IoContext W Op)
  setup w =
      let (created, w') = k.epoll_create w in
      if created
      then ok (record { m_managed_fd = []; objects = λ a. unallocated; fresh = 0; kernel = w' })
      else fail errno

  unfoldable pub register_fd : ℕ → Io (IoContext W Op) ℕ
  unfolding manage
  register_fd fd s =
      let (flags, w) = k.fcntl_getfl fd s.kernel in
      elim flags [
        | none ↦ (fail errno, record s { kernel = w })
        | some f ↦
            let (set, w') = k.fcntl_setfl fd (bit_or f o_nonblock) w in
            if set
            then (ok s.fresh, manage fd (record s { kernel = w' }))
            else (fail errno, record s { kernel = w' })
      ]

  -- `epoll_ctl` on an object's descriptor. A failure is only written to the log.
  unfoldable pub control : Control → Events → ℕ → IoContext W Op → IoContext W Op
  control c e a s = record s { kernel = (k.epoll_ctl c (s.objects a).m_fd e s.kernel).1 }

  unfoldable pub attach : ℕ → IoContext W Op → IoContext W Op
  unfolding control change
  attach a s = change a (with_io_state read_events) (control epoll_ctl_add read_events a s)

  unfoldable pub attach_readonly : ℕ → IoContext W Op → IoContext W Op
  unfolding control change
  attach_readonly a s = change a (with_io_state read_events) (control epoll_ctl_add read_events a s)

  unfoldable pub attach_write_only : ℕ → IoContext W Op → IoContext W Op
  unfolding control change
  attach_write_only a s =
      change a (with_io_state write_events) (control epoll_ctl_add write_events a s)

  -- The pointer is `none` where it is null. The two failures in the middle end the process.
  unfoldable pub close_afd : Option ℕ → Io (IoContext W Op) Bool
  close_afd none s = (fail invalid_argument, s)
  close_afd (some a) s = elim (find (s.objects a).m_fd s) [
    | none ↦ (fail no_such_file_or_directory, s)
    | some b ↦
        if b == a
        then (let (deleted, w) = k.epoll_ctl epoll_ctl_del (s.objects a).m_fd no_events s.kernel in
            let (closed, w') = k.close_operation (s.objects a).m_fd w in
            if deleted
            then (if closed
                then (ok true, forget a (record s { kernel = w' }))
                else (fail errno, forget a (record s { kernel = w' })))
            else (fail errno, record s { kernel = w }))
        else (fail state_not_recoverable, s)
  ]
