-- ===== src/EventLoop/Rounds.antt =====
-- The rounds of `IOContext::run` of src/io_context.cc, with coroutines that act on the context
-- through its operations.
use shared_state_async.Prelude.{
  ℕ, zero, suc, Bool, some, List, [], ◌∷◌, length, ◌==◌, ◌≡◌, refl, sym, ◌∙◌, ap, arith, Bool-cases,
  Option-cases, inl, inr, All,
}
use shared_state_async.Prelude.Map.{Map, lookup, nat_key}
use shared_state_async.Errors.{Result, ok, fail, throw, crash}
use shared_state_async.Wire.Io.{continue}
use shared_state_async.Wire.Io.Preserves.{Preserves, Preserves-bind}
use shared_state_async.EventLoop.{
  with_pending_ops, tail, AsyncFileDescriptor, IoContext, Kernel, queue, head, pop, setup,
  default_max_events,
}
use shared_state_async.EventLoop.Turn.{
  wanted, resume_loop, resume_pending_ops, handle_event, handle_events, refresh, refresh_all,
  update_interest, retried, turn, run,
}
use shared_state_async.EventLoop.Interest.{
  IsEpoll, Watched-refresh, self_found, objects-refresh, refresh_managed, refresh_fresh,
  interest-refresh, refresh_all_same, update_interest_lem,
}
use shared_state_async.EventLoop.Steps.{Reach, Reach-IsManaged}
use shared_state_async.EventLoop.Managed.{IsManaged, change-IsManaged, kernel-IsManaged}

module _ {W : Type 0} {k : Kernel W} (law : IsEpoll k) where
  retried_interest : (n : ℕ) (w : W) (j : ℕ) → law.interest (retried k n w) j ≡ law.interest w j
  unfolding retried
  retried_interest zero w j = refl
  retried_interest (suc n) w j =
      retried_interest n (k.interrupted_wait default_max_events w) j
      ∙ law.by_interruption default_max_events w j

module _ {W Op : Type 0} {k : Kernel W} (law : IsEpoll k) where
  refresh-IsManaged :
      (fd a : ℕ) (s : IoContext W Op)
      → lookup fd s.m_managed_fd ≡ some a
      → IsManaged law s
      → IsManaged law (refresh k a s)
  refresh-IsManaged fd a s found v =
      let (hf, hi) = v.watched fd a found in
      let same_map = refresh_managed k a s in
      record {
        keys = rw same_map v.keys;
        allocated = rw (same_map, refresh_fresh k a s) v.allocated;
        owned = λ b j l h. rw same_map (
            v.owned b j (rw (sym (refresh_fresh k a s)) l)
              (ground (arith, h, objects-refresh k a s b)));
        watched = Watched-refresh law fd a s found v.watched;
        unwatched = λ j h.
            let unfound = ap (lookup j) (sym same_map) ∙ h in
            ground
              (arith, interest-refresh law fd a s hf hi j, v.unwatched j unfound, unfound, found);
      }

  refresh_all-IsManaged :
      (m : Map ℕ ℕ) (s : IoContext W Op)
      → All (λ (e : ℕ × ℕ). lookup e.0 s.m_managed_fd ≡ some e.1) m
      → IsManaged law s
      → IsManaged law (refresh_all k m s)
  unfolding refresh_all
  refresh_all-IsManaged [] s all v = v
  refresh_all-IsManaged ((fd, a) ∷ m) s all v =
      refresh_all-IsManaged m (refresh k a s) (rw (refresh_managed k a s) all.1)
        (refresh-IsManaged fd a s all.0 v)

  -- Each managed descriptor is watched for exactly what is wanted of it.
  pub record IsSettled (s : IoContext W Op) : Type 0 where
    pub managed : IsManaged law s
    pub as_wanted :
        (fd a : ℕ)
        → lookup fd s.m_managed_fd ≡ some a
        → law.interest s.kernel fd ≡ some (wanted (s.objects a))

  update_interest-IsSettled :
      (b : Bool) (s : IoContext W Op) → IsManaged law s → IsSettled (update_interest k b s).1
  unfolding update_interest
  update_interest-IsSettled b s v =
      let same_map = (refresh_all_same k s.m_managed_fd s).0 in
      record {
        managed = refresh_all-IsManaged s.m_managed_fd s (self_found s.m_managed_fd v.keys) v;
        as_wanted = λ fd a h.
            let (watched, noted, _) =
              update_interest_lem law s v.keys v.watched fd a (ap (lookup fd) (sym same_map) ∙ h) in
            watched ∙ ap (λ (x : AsyncFileDescriptor Op). some (wanted x)) (sym noted);
      }

  after_round :
      (r : Result (Unit {0}) × IoContext W Op)
      (f : Unit {0} → IoContext W Op → Result (Unit {0}) × IoContext W Op)
      → (r.0 ≡ ok tt → IsSettled r.1)
      → ((s : IoContext W Op) → IsSettled s → (f tt s).0 ≡ ok tt → IsSettled (f tt s).1)
      → (continue r.0 f r.1).0 ≡ ok tt
      → IsSettled (continue r.0 f r.1).1
  after_round (ok u, s) f first second h = second s (first refl) h
  after_round (fail e, s) f first second h = absurd (cc)
  after_round (throw, s) f first second h = absurd (cc)
  after_round (crash, s) f first second h = absurd (cc)

  managed_map : (s t : IoContext W Op) → ◌≡◌ {A = Result (IoContext W Op)} (ok s) (ok t) → s ≡ t
  managed_map s t h = cc

  setup-IsManaged : (w : W) (s : IoContext W Op) → setup k w ≡ ok s → IsManaged law s
  unfolding setup lookup
  setup-IsManaged w s = elim (Bool-cases (k.epoll_create w).0) [
    | inl made ↦
        rw (made, setup)
          (λ h. rw (← managed_map _ s h) (record {
            keys = tt;
            allocated = λ fd a e. absurd (cc);
            owned = λ a fd l e. absurd (omega arith);
            watched = λ fd a e. absurd (cc);
            unwatched = λ fd e. law.by_create w made fd;
          }))
    | inr failed ↦ rw (failed, setup) (λ h. absurd (cc))
  ]

  settle :
      (r : Result Bool × IoContext W Op)
      → IsManaged law r.1
      → (continue r.0 (update_interest k) r.1).0 ≡ ok tt
      → IsSettled (continue r.0 (update_interest k) r.1).1
  settle (ok b, s) v h = update_interest-IsSettled b s v
  settle (fail e, s) v h = absurd (cc)
  settle (throw, s) v h = absurd (cc)
  settle (crash, s) v h = absurd (cc)

  module _ (resume : Op → IoContext W Op → IoContext W Op)
      (acts : (op : Op) (s : IoContext W Op) → Reach law s (resume op s)) where
    resume_loop-IsManaged :
        (n a : ℕ) (s : IoContext W Op)
        → IsManaged law s
        → IsManaged law (resume_loop resume n a s).1
    unfolding resume_loop pop
    resume_loop-IsManaged zero a s v = v
    resume_loop-IsManaged (suc n) a s v = elim (Option-cases (head (queue a s))) [
      | inl e ↦ rw (e, resume_loop) v
      | inr (op, e) ↦
          rw (e, resume_loop)
            (resume_loop-IsManaged n a (pop a (resume op s)) (
              change-IsManaged law a (with_pending_ops tail) (resume op s) (λ x. (refl, refl))
                (Reach-IsManaged law (acts op s) v)))
    ]

    handle_event-Preserves : (fd : ℕ) → Preserves (IsManaged law) (handle_event resume fd)
    unfolding handle_event resume_pending_ops
    handle_event-Preserves fd = record {
      preserved = λ s v. elim (Option-cases (lookup fd s.m_managed_fd)) [
        | inl e ↦ rw (e, handle_event) v
        | inr (a, e) ↦ elim (Bool-cases (length (queue a s) == 0)) [
          | inl z ↦ rw (e, handle_event, resume_pending_ops, z) v
          | inr z ↦
              rw (e, handle_event, resume_pending_ops, z)
                (resume_loop-IsManaged (length (queue a s)) a s v)
        ]
      ];
    }

    handle_events-Preserves : (fds : List ℕ) → Preserves (IsManaged law) (handle_events resume fds)
    unfolding handle_events
    handle_events-Preserves [] = record { preserved = λ s v. v }
    handle_events-Preserves (fd ∷ fds) =
        Preserves-bind (IsManaged law) (handle_event-Preserves fd)
          (λ b. handle_events-Preserves fds)

    -- A round that ends settles what the kernel watches.
    turn-IsSettled :
        (s : IoContext W Op)
        → IsManaged law s
        → (turn k resume s).0 ≡ ok tt
        → IsSettled (turn k resume s).1
    unfolding turn update_interest
    turn-IsSettled s v =
        let waiting = retried k (k.interruptions s.kernel) s.kernel in
        let (events, w) = k.epoll_wait default_max_events waiting in
        let waited =
          kernel-IsManaged law w s
            (λ j.
              law.by_wait default_max_events waiting j
              ∙ retried_interest law (k.interruptions s.kernel) s.kernel j)
            v in
        elim (Option-cases events) [
          | inl e ↦ rw (e, turn) (λ h. absurd (cc))
          | inr (fds, e) ↦
              rw (e, turn)
                (settle (handle_events resume fds (record s { kernel = w }))
                  ((handle_events-Preserves fds).preserved (record s { kernel = w }) waited))
        ]

    run_settles :
        (rounds : ℕ) (s : IoContext W Op)
        → IsManaged law s
        → (run k resume (suc rounds) s).0 ≡ ok tt
        → IsSettled (run k resume (suc rounds) s).1
    unfolding run
    run_settles zero s v h =
        after_round (turn k resume s) (λ u. run k resume zero) (turn-IsSettled s v)
          (λ u settled e. settled) h
    run_settles (suc rounds) s v h =
        after_round (turn k resume s) (λ u. run k resume (suc rounds)) (turn-IsSettled s v)
          (λ u settled e. run_settles rounds u settled.managed e) h

    -- For a kernel that keeps the epoll set as documented, a context that is set up and then
    -- changed only through its operations, by the program and by the coroutines, which open only
    -- descriptors that are not managed and can be attached: whenever a round has ended, however
    -- many have run and whatever has happened in them, each managed descriptor is watched for
    -- exactly what is wanted of it. The map and the open objects then agree in both directions, and
    -- no other descriptor is in the epoll set.
    pub run-IsSettled :
        (w : W) (s₀ s : IoContext W Op) (rounds : ℕ)
        → setup k w ≡ ok s₀
        → Reach law s₀ s
        → (run k resume (suc rounds) s).0 ≡ ok tt
        → IsSettled (run k resume (suc rounds) s).1
    run-IsSettled w s₀ s rounds h r =
        run_settles rounds s (Reach-IsManaged law r (setup-IsManaged w s₀ h))
