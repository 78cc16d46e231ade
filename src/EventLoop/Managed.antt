-- ===== src/EventLoop/Managed.antt =====
-- The descriptors that `IOContext` of include/io_context.hh manages: which object stands for which
-- descriptor, and what the kernel watches.
use Prim.Native.Nat.{bit_or}
use shared_state_async.Prelude.{
  ℕ, suc, ◌<◌, true, Option, none, some, [], ◌==◌, ==_iff, if◌then◌else◌, ◌≡◌, refl, ◌∙◌, ap, arith,
  Bool-cases, inl, inr, Option-cases,
}
use shared_state_async.Prelude.Map.{
  lookup, insert, erase, IsMap, insert-IsMap, erase-IsMap, lookup-insert, lookup-erase, nat_key,
}
use shared_state_async.Errors.{ok}
use shared_state_async.EventLoop.{
  o_nonblock, Events, no_events, AsyncFileDescriptor, IoContext, Kernel, epoll_ctl_add,
  epoll_ctl_del, change, control, register_fd, close_afd, manage, forget,
}
use shared_state_async.EventLoop.Interest.{IsEpoll, Watched}

module _ {W Op : Type 0} {k : Kernel W} (law : IsEpoll k) where
  -- The map and the open objects agree in both directions, and the kernel watches the managed
  -- descriptors, as their objects have noted, and no other.
  pub record IsManaged (s : IoContext W Op) : Type 0 where
    pub keys : IsMap s.m_managed_fd
    pub allocated : (fd a : ℕ) → lookup fd s.m_managed_fd ≡ some a → a < s.fresh
    pub owned :
        (a fd : ℕ) → a < s.fresh → (s.objects a).m_fd ≡ some fd → lookup fd s.m_managed_fd ≡ some a
    pub watched : Watched law s
    pub unwatched : (fd : ℕ) → lookup fd s.m_managed_fd ≡ none → law.interest s.kernel fd ≡ none

  -- What an operation on one object leaves alone.
  abbrev KeepsDescriptor : (AsyncFileDescriptor Op → AsyncFileDescriptor Op) → Type 0
  KeepsDescriptor f =
      (afd : AsyncFileDescriptor Op)
      → ((f afd).m_fd ≡ afd.m_fd) × ((f afd).m_io_state ≡ afd.m_io_state)

  pub change-IsManaged :
      (a : ℕ) (f : AsyncFileDescriptor Op → AsyncFileDescriptor Op) (s : IoContext W Op)
      → KeepsDescriptor f
      → IsManaged s
      → IsManaged (change a f s)
  unfolding change
  change-IsManaged a f s h v = record {
    keys = v.keys;
    allocated = v.allocated;
    owned = λ b fd l e. v.owned b fd l (ground (arith, h (s.objects a)));
    watched = λ fd b e. ground (arith, v.watched fd b e, h (s.objects a));
    unwatched = v.unwatched;
  }

  -- A new object for a descriptor that was not managed.
  opened-IsManaged :
      (fd : ℕ) (e : Events) (s t : IoContext W Op)
      → lookup fd s.m_managed_fd ≡ none
      → t.m_managed_fd ≡ insert fd s.fresh s.m_managed_fd
      → t.fresh ≡ suc s.fresh
      → ((b : ℕ)
          → t.objects b ≡ (
              if s.fresh == b
              then record {
                m_fd = some fd;
                m_io_state = e;
                m_next_io_state = no_events;
                m_pending_ops = [];
              }
              else s.objects b))
      → ((j : ℕ) → law.interest t.kernel j ≡ (if fd == j then some e else law.interest s.kernel j))
      → IsManaged s
      → IsManaged t
  opened-IsManaged fd e s t new hm hf ho hi v =
      let found = λ (j : ℕ). ap (lookup j) hm ∙ lookup-insert fd j s.fresh s.m_managed_fd in
      record {
        keys = rw hm (insert-IsMap fd s.fresh s.m_managed_fd v.keys);
        allocated = λ j b h. ground (arith, found j, hf, h, v.allocated j b);
        owned = λ b j l h. ground (arith, found j, hf, l, h, ho b, v.owned b j, v.allocated j b);
        watched = λ j b h. (
          ground (arith, found j, h, ho b, v.allocated j b, v.watched j b),
          ground (arith, found j, h, ho b, hi j, v.allocated j b, v.watched j b),
        );
        unwatched = λ j h. ground (arith, found j, hi j, v.unwatched j);
      }

  -- A managed object that is closed.
  closed-IsManaged :
      (fd a : ℕ) (s t : IoContext W Op)
      → lookup fd s.m_managed_fd ≡ some a
      → t.m_managed_fd ≡ erase fd s.m_managed_fd
      → t.fresh ≡ s.fresh
      → ((b : ℕ)
          → t.objects b ≡ (if a == b then record (s.objects a) { m_fd = none } else s.objects b))
      → ((j : ℕ) → law.interest t.kernel j ≡ (if fd == j then none else law.interest s.kernel j))
      → IsManaged s
      → IsManaged t
  closed-IsManaged fd a s t old hm hf ho hi v =
      let found = λ (j : ℕ). ap (lookup j) hm ∙ lookup-erase fd j s.m_managed_fd in
      let mine = v.watched fd a old in
      record {
        keys = rw hm (erase-IsMap fd s.m_managed_fd v.keys);
        allocated = λ j b h. ground (arith, found j, hf, h, v.allocated j b);
        owned = λ b j l h. ground (arith, found j, hf, l, h, ho b, v.owned b j, v.owned b fd, mine);
        watched = λ j b h. (
          ground (arith, found j, h, ho b, v.watched j b, mine),
          ground (arith, found j, h, ho b, hi j, v.watched j b, mine),
        );
        unwatched = λ j h. ground (arith, found j, hi j, h, v.unwatched j);
      }

  -- A change of the kernel's state that leaves the epoll set as it is.
  pub kernel-IsManaged :
      (w : W) (s : IoContext W Op)
      → ((j : ℕ) → law.interest w j ≡ law.interest s.kernel j)
      → IsManaged s
      → IsManaged (record s { kernel = w })
  kernel-IsManaged w s hi v = record {
    keys = v.keys;
    allocated = v.allocated;
    owned = v.owned;
    watched = λ j b h. ((v.watched j b h).0, hi j ∙ (v.watched j b h).1);
    unwatched = λ j h. hi j ∙ v.unwatched j h;
  }

  -- What `closeAFD` leaves of a managed object once its descriptor is out of the epoll set.
  forget-IsManaged :
      (fd a : ℕ) (w : W) (s : IoContext W Op)
      → (s.objects a).m_fd ≡ some fd
      → lookup fd s.m_managed_fd ≡ some a
      → ((j : ℕ) → law.interest w j ≡ (if fd == j then none else law.interest s.kernel j))
      → IsManaged s
      → IsManaged (forget a (record s { kernel = w }))
  unfolding forget
  forget-IsManaged fd a w s e f hi v =
      closed-IsManaged fd a s (forget a (record s { kernel = w })) f (rw (e, forget) refl) refl
        (λ b. ground arith) hi v

  close_found :
      (fd a : ℕ) (s : IoContext W Op)
      → (s.objects a).m_fd ≡ some fd
      → lookup fd s.m_managed_fd ≡ some a
      → IsManaged s
      → IsManaged (close_afd k (some a) s).1
  unfolding close_afd
  close_found fd a s e f v =
      let d = k.epoll_ctl epoll_ctl_del (some fd) no_events s.kernel in
      let c = k.close_operation (some fd) d.1 in
      let same : (a == a) ≡ true = ground arith in
      elim (Bool-cases d.0) [
        | inl deleted ↦
            let gone = λ (j : ℕ). law.by_del fd no_events s.kernel j in
            let after =
              forget-IsManaged fd a c.1 s e f
                (λ j.
                  law.by_close fd d.1 (ground (arith, gone fd, deleted)) j
                  ∙ ground (arith, gone j, deleted))
                v in
            elim (Bool-cases c.0) [
              | inl closed ↦ rw (e, f, close_afd, same, e, deleted, closed) after
              | inr failed ↦ rw (e, f, close_afd, same, e, deleted, failed) after
            ]
        | inr refused ↦
            rw (e, f, close_afd, same, e, refused)
              (kernel-IsManaged d.1 s
                (λ j. ground (arith, law.by_del fd no_events s.kernel j, refused)) v)
      ]

  pub close_afd-IsManaged :
      (p : Option ℕ) (s : IoContext W Op) → IsManaged s → IsManaged (close_afd k p s).1
  unfolding close_afd
  close_afd-IsManaged none s v = v
  close_afd-IsManaged (some a) s v = elim (Option-cases (s.objects a).m_fd) [
    | inl e ↦ rw (e, close_afd) v
    | inr (fd, e) ↦ elim (Option-cases (lookup fd s.m_managed_fd)) [
      | inl f ↦ rw (e, f, close_afd) v
      | inr (b, f) ↦ elim (Bool-cases (b == a)) [
        | inl t ↦ close_found fd a s e (f ∙ ap some ((==_iff b a).0 t)) v
        | inr t ↦ rw (e, f, close_afd, t) v
      ]
    ]
  ]

  unfoldable pub new_object : ℕ → Events → AsyncFileDescriptor Op
  new_object fd e = record {
    m_fd = some fd;
    m_io_state = e;
    m_next_io_state = no_events;
    m_pending_ops = [];
  }

  -- The state after a registration that succeeds.
  pub record Registered (fd a : ℕ) (s t : IoContext W Op) : Type 0 where
    pub new_address : a ≡ s.fresh
    pub in_map : t.m_managed_fd ≡ insert fd s.fresh s.m_managed_fd
    next_fresh : t.fresh ≡ suc s.fresh
    pub in_place :
        (b : ℕ) → t.objects b ≡ (if s.fresh == b then new_object fd no_events else s.objects b)
    pub same_set : (j : ℕ) → law.interest t.kernel j ≡ law.interest s.kernel j

  pub register_fd-Registered :
      (fd a : ℕ) (s : IoContext W Op)
      → (register_fd k fd s).0 ≡ ok a
      → Registered fd a s (register_fd k fd s).1
  unfolding register_fd manage new_object
  register_fd-Registered fd a s =
      let g = k.fcntl_getfl fd s.kernel in
      elim (Option-cases g.0) [
        | inl e ↦ rw (e, register_fd) (λ h. absurd (cc))
        | inr (f, e) ↦
            let c = k.fcntl_setfl fd (bit_or f o_nonblock) g.1 in
            elim (Bool-cases c.0) [
              | inl set ↦
                  rw (e, register_fd, set)
                    (λ h. record {
                      new_address = ground (arith, h);
                      in_map = refl;
                      next_fresh = refl;
                      in_place = λ b. refl;
                      same_set = λ j.
                          (law.by_fcntl fd (bit_or f o_nonblock) g.1 j).1
                          ∙ (law.by_fcntl fd 0 s.kernel j).0;
                    })
              | inr failed ↦ rw (e, register_fd, failed) (λ h. absurd (cc))
            ]
      ]

  -- `registerFD` and the attachment that follows it, which no other operation comes between.
  pub registered-IsManaged :
      (fd a : ℕ) (e : Events) (s t : IoContext W Op)
      → lookup fd s.m_managed_fd ≡ none
      → Registered fd a s t
      → (k.epoll_ctl epoll_ctl_add (some fd) e t.kernel).0 ≡ true
      → IsManaged s
      → IsManaged (change a (λ afd. record afd { m_io_state = e }) (control k epoll_ctl_add e a t))
  unfolding control change new_object
  registered-IsManaged fd a e s t new r added v =
      let here : t.objects a ≡ new_object fd no_events =
        ground (arith, r.in_place a, r.new_address) in
      let fd_here : (t.objects a).m_fd ≡ some fd = rw here refl in
      opened-IsManaged fd e s _ new r.in_map r.next_fresh
        (λ b. ground (arith, here, r.in_place b, r.new_address))
        (λ j. rw fd_here (law.by_add fd e t.kernel added j ∙ ground (arith, r.same_set j))) v
