-- ===== src/EventLoop/Steps.antt =====
-- What a coroutine does to an `IOContext` of src/io_context.cc between two suspensions.
use Prim.Native.Nat.{bit_or}
use shared_state_async.Prelude.{
  ℕ, true, false, Option, none, some, [], ◌∷◌, ◌++◌, ◌≡◌, refl, ◌∙◌, arith, Bool-cases,
  Option-cases, inl, inr,
}
use shared_state_async.Prelude.Map.{lookup, nat_key}
use shared_state_async.Errors.{Error, ok, fail}
use shared_state_async.EventLoop.{
  o_nonblock, with_next_io_state, with_pending_ops, read_events, write_events, IoContext, Kernel,
  epoll_ctl_add, watch_read, unwatch_read, watch_write, unwatch_write, add_pending_op, register_fd,
  attach, attach_readonly, attach_write_only, close_afd,
}
use shared_state_async.EventLoop.Interest.{IsEpoll}
use shared_state_async.EventLoop.Managed.{
  IsManaged, change-IsManaged, kernel-IsManaged, close_afd-IsManaged, register_fd-Registered,
  registered-IsManaged,
}

module _ {W Op : Type 0} {k : Kernel W} (law : IsEpoll k) where
  -- What a coroutine does to the context at once: it opens a descriptor that was not managed and
  -- attaches it, closes one, or changes what is watched or what waits.
  pub data Step (s : IoContext W Op) : IoContext W Op → Type 0 where
    opens :
        (fd a : ℕ)
        → lookup fd s.m_managed_fd ≡ none
        → (register_fd k fd s).0 ≡ ok a
        → (k.epoll_ctl epoll_ctl_add (some fd) read_events (register_fd k fd s).1.kernel).0 ≡ true
        → Step s (attach k a (register_fd k fd s).1)
    opens_readonly :
        (fd a : ℕ)
        → lookup fd s.m_managed_fd ≡ none
        → (register_fd k fd s).0 ≡ ok a
        → (k.epoll_ctl epoll_ctl_add (some fd) read_events (register_fd k fd s).1.kernel).0 ≡ true
        → Step s (attach_readonly k a (register_fd k fd s).1)
    opens_write_only :
        (fd a : ℕ)
        → lookup fd s.m_managed_fd ≡ none
        → (register_fd k fd s).0 ≡ ok a
        → (k.epoll_ctl epoll_ctl_add (some fd) write_events (register_fd k fd s).1.kernel).0 ≡ true
        → Step s (attach_write_only k a (register_fd k fd s).1)
    opens_nothing :
        (fd : ℕ) (e : Error) → (register_fd k fd s).0 ≡ fail e → Step s (register_fd k fd s).1
    closes : (p : Option ℕ) → Step s (close_afd k p s).1
    watches_read : (a : ℕ) → Step s (watch_read a s)
    unwatches_read : (a : ℕ) → Step s (unwatch_read a s)
    watches_write : (a : ℕ) → Step s (watch_write a s)
    unwatches_write : (a : ℕ) → Step s (unwatch_write a s)
    waits : (a : ℕ) (op : Op) → Step s (add_pending_op a op s)

  pub data Reach (s : IoContext W Op) : IoContext W Op → Type 0 where
    here : Reach s s
    next : {t u : IoContext W Op} → Reach s t → Step t u → Reach s u

  register_fails :
      (fd : ℕ) (e : Error) (s : IoContext W Op)
      → (register_fd k fd s).0 ≡ fail e
      → IsManaged law s
      → IsManaged law (register_fd k fd s).1
  unfolding register_fd
  register_fails fd e s h v =
      let g = k.fcntl_getfl fd s.kernel in
      elim (Option-cases g.0) [
        | inl n ↦
            rw (n, register_fd)
              (kernel-IsManaged law g.1 s (λ j. (law.by_fcntl fd 0 s.kernel j).0) v)
        | inr (f, n) ↦
            let c = k.fcntl_setfl fd (bit_or f o_nonblock) g.1 in
            elim (Bool-cases c.0) [
              | inl set ↦ absurd (ground (arith, h, n, set))
              | inr failed ↦
                  rw (n, register_fd, failed)
                    (kernel-IsManaged law c.1 s
                      (λ j.
                        (law.by_fcntl fd (bit_or f o_nonblock) g.1 j).1
                        ∙ (law.by_fcntl fd 0 s.kernel j).0)
                      v)
            ]
      ]

  Step-IsManaged : {s t : IoContext W Op} → Step s t → IsManaged law s → IsManaged law t
  unfolding attach attach_readonly attach_write_only watch_read unwatch_read watch_write
      unwatch_write add_pending_op
  Step-IsManaged {s} (opens fd a new h added) v =
      registered-IsManaged law fd a read_events s _ new (register_fd-Registered law fd a s h) added
        v
  Step-IsManaged {s} (opens_readonly fd a new h added) v =
      registered-IsManaged law fd a read_events s _ new (register_fd-Registered law fd a s h) added
        v
  Step-IsManaged {s} (opens_write_only fd a new h added) v =
      registered-IsManaged law fd a write_events s _ new (register_fd-Registered law fd a s h) added
        v
  Step-IsManaged {s} (opens_nothing fd e h) v = register_fails fd e s h v
  Step-IsManaged {s} (closes p) v = close_afd-IsManaged law p s v
  Step-IsManaged {s} (watches_read a) v =
      change-IsManaged law a (with_next_io_state (λ e. record e { epollin = true })) s
        (λ x. (refl, refl)) v
  Step-IsManaged {s} (unwatches_read a) v =
      change-IsManaged law a (with_next_io_state (λ e. record e { epollin = false })) s
        (λ x. (refl, refl)) v
  Step-IsManaged {s} (watches_write a) v =
      change-IsManaged law a (with_next_io_state (λ e. record e { epollout = true })) s
        (λ x. (refl, refl)) v
  Step-IsManaged {s} (unwatches_write a) v =
      change-IsManaged law a (with_next_io_state (λ e. record e { epollout = false })) s
        (λ x. (refl, refl)) v
  Step-IsManaged {s} (waits a op) v =
      change-IsManaged law a (with_pending_ops (λ ops. ops ++ op ∷ [])) s (λ x. (refl, refl)) v

  pub Reach-IsManaged : {s t : IoContext W Op} → Reach s t → IsManaged law s → IsManaged law t
  Reach-IsManaged here v = v
  Reach-IsManaged (next r st) v = Step-IsManaged st (Reach-IsManaged r v)
