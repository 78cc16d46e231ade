-- ===== src/EventLoop/Interest.antt =====
-- What `IOContext::run` of src/io_context.cc asks the kernel to watch.
use shared_state_async.Prelude.{
  ℕ, Bool, true, false, ◌&&◌, ◌||◌, Option, none, some, [], ◌∷◌, ◌==◌, if◌then◌else◌, ◌≡◌, ◌≢◌,
  refl, sym, ◌∙◌, ap, arith, Bool-cases, inl, inr, All,
}
use shared_state_async.Prelude.Map.{Map, lookup, IsMap, nat_key}
use shared_state_async.EventLoop.{
  Events, events_eq, AsyncFileDescriptor, IoContext, Kernel, epoll_ctl_add, epoll_ctl_mod,
  epoll_ctl_del, change, control,
}
use shared_state_async.EventLoop.Turn.{wanted, refresh, refresh_all, update_interest}

pub events_eq_sound : (a b : Events) → events_eq a b ≡ true → a ≡ b
unfolding events_eq
events_eq_sound a b h = ground arith

-- What a round does to one object.
abbrev pub refreshed : {Op : Type 0} → AsyncFileDescriptor Op → AsyncFileDescriptor Op
refreshed afd = record afd { m_io_state = wanted afd }

abbrev points_to : ℕ → Map ℕ ℕ → Bool
points_to b [] = false
points_to b ((fd, a) ∷ m) = (a == b) || points_to b m

-- What epoll documents: the set of the watched descriptors, with the events each is watched for.
-- `EPOLL_CTL_MOD` changes what a descriptor in the set is watched for; what fails to be removed
-- stays; a descriptor that is not in
-- the set is closed without a change to it; no other call changes it.
pub record IsEpoll {W : Type 0} (k : Kernel W) : Type 0 where
  pub interest : W → ℕ → Option Events
  pub by_create :
      (w : W) → (k.epoll_create w).0 ≡ true → (j : ℕ) → interest (k.epoll_create w).1 j ≡ none
  pub by_add :
      (fd : ℕ) (e : Events) (w : W)
      → (k.epoll_ctl epoll_ctl_add (some fd) e w).0 ≡ true
      → (j : ℕ)
      → interest (k.epoll_ctl epoll_ctl_add (some fd) e w).1 j
        ≡ (if fd == j then some e else interest w j)
  pub by_mod :
      (fd : ℕ) (e : Events) (w : W)
      → interest w fd ≢ none
      → (j : ℕ)
      → interest (k.epoll_ctl epoll_ctl_mod (some fd) e w).1 j
        ≡ (if fd == j then some e else interest w j)
  pub by_del :
      (fd : ℕ) (e : Events) (w : W)
      → (j : ℕ)
      → interest (k.epoll_ctl epoll_ctl_del (some fd) e w).1 j
        ≡ (if (k.epoll_ctl epoll_ctl_del (some fd) e w).0 && fd == j then none else interest w j)
  pub by_close :
      (fd : ℕ) (w : W)
      → interest w fd ≡ none
      → (j : ℕ) → interest (k.close_operation (some fd) w).1 j ≡ interest w j
  pub by_fcntl :
      (fd flags : ℕ) (w : W) (j : ℕ)
      → (interest (k.fcntl_getfl fd w).1 j ≡ interest w j)
        × (interest (k.fcntl_setfl fd flags w).1 j ≡ interest w j)
  pub by_interruption : (n : ℕ) (w : W) (j : ℕ) → interest (k.interrupted_wait n w) j ≡ interest w j
  pub by_wait : (n : ℕ) (w : W) (j : ℕ) → interest (k.epoll_wait n w).1 j ≡ interest w j

module _ {W Op : Type 0} (k : Kernel W) where
  pub objects-refresh :
      (a : ℕ) (s : IoContext W Op) (b : ℕ)
      → (refresh k a s).objects b ≡ (if a == b then refreshed (s.objects b) else s.objects b)
  unfolding refresh change control
  objects-refresh a s b =
      elim (Bool-cases (events_eq (s.objects a).m_io_state (wanted (s.objects a)))) [
        | inl e ↦ ground (arith, events_eq_sound (s.objects a).m_io_state (wanted (s.objects a)))
        | inr e ↦ rw e (ground arith)
      ]

  pub refresh_managed : (a : ℕ) (s : IoContext W Op) → (refresh k a s).m_managed_fd ≡ s.m_managed_fd
  unfolding refresh change control
  refresh_managed a s = ground arith

  pub refresh_fresh : (a : ℕ) (s : IoContext W Op) → (refresh k a s).fresh ≡ s.fresh
  unfolding refresh change control
  refresh_fresh a s = ground arith

  objects-refresh_all :
      (m : Map ℕ ℕ) (s : IoContext W Op) (b : ℕ)
      → (refresh_all k m s).objects b
        ≡ (if points_to b m then refreshed (s.objects b) else s.objects b)
  unfolding refresh_all
  objects-refresh_all [] s b = refl
  objects-refresh_all ((fd, a) ∷ m) s b =
      ground (arith, objects-refresh_all m (refresh k a s) b, objects-refresh a s b)

  pub refresh_all_same :
      (m : Map ℕ ℕ) (s : IoContext W Op)
      → ((refresh_all k m s).m_managed_fd ≡ s.m_managed_fd) × ((refresh_all k m s).fresh ≡ s.fresh)
  unfolding refresh_all
  refresh_all_same [] s = (refl, refl)
  refresh_all_same ((fd, a) ∷ m) s =
      let (e, f) = refresh_all_same m (refresh k a s) in
      (e ∙ refresh_managed a s, f ∙ refresh_fresh a s)

-- Each entry of a map is what its key finds.
found_tail :
    (j v : ℕ) (m rest : Map ℕ ℕ)
    → lookup j rest ≡ none
    → All (λ (e : ℕ × ℕ). lookup e.0 rest ≡ some e.1) m
    → All (λ (e : ℕ × ℕ). lookup e.0 ((j, v) ∷ rest) ≡ some e.1) m
unfolding lookup
found_tail j v [] rest h all = tt
found_tail j v (e ∷ m) rest h all = (ground (arith, all.0), found_tail j v m rest h all.1)

pub self_found : (m : Map ℕ ℕ) → IsMap m → All (λ (e : ℕ × ℕ). lookup e.0 m ≡ some e.1) m
unfolding lookup
self_found [] h = tt
self_found ((fd, a) ∷ m) h = (ground arith, found_tail fd a m m h.0 (self_found m h.1))

points_to-found : (m : Map ℕ ℕ) (fd a : ℕ) → lookup fd m ≡ some a → points_to a m ≡ true
unfolding lookup
points_to-found [] fd a h = cc
points_to-found ((j, v) ∷ m) fd a h = ground (arith, points_to-found m fd a)

module _ {W Op : Type 0} {k : Kernel W} (law : IsEpoll k) where
  -- The kernel watches each managed descriptor for the state that its object has noted.
  abbrev pub Watched : IoContext W Op → Type 0
  Watched s =
      (fd a : ℕ)
      → lookup fd s.m_managed_fd ≡ some a
      → ((s.objects a).m_fd ≡ some fd) × (law.interest s.kernel fd ≡ some (s.objects a).m_io_state)

  pub interest-refresh :
      (fd a : ℕ) (s : IoContext W Op)
      → (s.objects a).m_fd ≡ some fd
      → law.interest s.kernel fd ≡ some (s.objects a).m_io_state
      → (j : ℕ)
      → law.interest (refresh k a s).kernel j
        ≡ (if fd == j then some (wanted (s.objects a)) else law.interest s.kernel j)
  unfolding refresh change control
  interest-refresh fd a s hf hi j =
      elim (Bool-cases (events_eq (s.objects a).m_io_state (wanted (s.objects a)))) [
        | inl e ↦ ground (arith, events_eq_sound (s.objects a).m_io_state (wanted (s.objects a)))
        | inr e ↦
            rw (e, refresh, hf) (law.by_mod fd (wanted (s.objects a)) s.kernel (λ p. cc (hi, p)) j)
      ]

  pub Watched-refresh :
      (fd a : ℕ) (s : IoContext W Op)
      → lookup fd s.m_managed_fd ≡ some a
      → Watched s
      → Watched (refresh k a s)
  Watched-refresh fd a s h watched j b hb =
      let (hf, hi) = watched fd a h in
      let found : lookup j s.m_managed_fd ≡ some b =
        ap (lookup j) (sym (refresh_managed k a s)) ∙ hb in
      let (jf, ji) = watched j b found in
      (
        ground (arith, objects-refresh k a s b),
        ground (arith, objects-refresh k a s b, interest-refresh fd a s hf hi j),
      )

  Watched-refresh_all :
      (m : Map ℕ ℕ) (s : IoContext W Op)
      → All (λ (e : ℕ × ℕ). lookup e.0 s.m_managed_fd ≡ some e.1) m
      → Watched s
      → Watched (refresh_all k m s)
  unfolding refresh_all
  Watched-refresh_all [] s all watched = watched
  Watched-refresh_all ((fd, a) ∷ m) s all watched =
      Watched-refresh_all m (refresh k a s) (rw (refresh_managed k a s) all.1)
        (Watched-refresh fd a s all.0 watched)

  -- Where the managed descriptors are in the epoll set as their objects have noted: at the end of a
  -- round each of them is watched for exactly what is wanted of it, edge-triggered, and this is
  -- noted. What is wanted, what waits and the map itself do not change.
  pub update_interest_lem :
      (s : IoContext W Op)
      → IsMap s.m_managed_fd
      → Watched s
      → (fd a : ℕ) → lookup fd s.m_managed_fd ≡ some a
      → let s' = (update_interest k true s).1 in
        (law.interest s'.kernel fd ≡ some (wanted (s.objects a)))
        × (s'.objects a ≡ refreshed (s.objects a))
        × (s'.m_managed_fd ≡ s.m_managed_fd)
  unfolding update_interest
  update_interest_lem s keys watched fd a h =
      let m = s.m_managed_fd in
      let s' = refresh_all k m s in
      let same_map = (refresh_all_same k m s).0 in
      let now : s'.objects a ≡ refreshed (s.objects a) =
        objects-refresh_all k m s a ∙ rw (points_to-found m fd a h) refl in
      let (f, i) =
        Watched-refresh_all m s (self_found m keys) watched fd a (ap (lookup fd) same_map ∙ h) in
      (i ∙ ap (λ (x : AsyncFileDescriptor Op). some x.m_io_state) now, now, same_map)
