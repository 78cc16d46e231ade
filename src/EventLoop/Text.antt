-- ===== src/EventLoop/Text.antt =====
-- The text for debug messages: src/epoll_events_to_string.cc, and `operator<<` of
-- src/io_context.cc, src/async_file_descriptor.cc and src/async_command.cc. How a number and an
-- address are printed is a parameter; -1 is the number of no descriptor.
use mathlib.Core.List.{append_assoc, append-nil}
use shared_state_async.Prelude.{
  ℕ, ◌/◌, ◌%◌, ◌^◌, Bool, Option, none, some, List, [], ◌∷◌, ◌++◌, length, ◌==◌, if◌then◌else◌, ◌≡◌,
  ◌<◌, All, refl, sym, arith, ◌∙◌, ap, Bool-cases, inl, inr,
}
use shared_state_async.Prelude.Map.{Map}
use shared_state_async.Prelude.Bytes.{Bytes, bytes}
use shared_state_async.EventLoop.{IoContext}

-- `events & (1 << n)`
unfoldable pub has_bit : ℕ → ℕ → Bool
has_bit events n = events / 2 ^ n % 2 == 1

-- The flags of <sys/epoll.h> in the order of the tests, by the place of their bit.
abbrev pub flags : List (ℕ × Bytes)
flags =
    (0, bytes "EPOLLIN")
    ∷ (1, bytes "EPOLLPRI")
    ∷ (2, bytes "EPOLLOUT")
    ∷ (6, bytes "EPOLLRDNORM")
    ∷ (7, bytes "EPOLLRDBAND")
    ∷ (8, bytes "EPOLLWRNORM")
    ∷ (9, bytes "EPOLLWRBAND")
    ∷ (10, bytes "EPOLLMSG")
    ∷ (3, bytes "EPOLLERR")
    ∷ (4, bytes "EPOLLHUP")
    ∷ (13, bytes "EPOLLRDHUP")
    ∷ (28, bytes "EPOLLEXCLUSIVE")
    ∷ (29, bytes "EPOLLWAKEUP")
    ∷ (30, bytes "EPOLLONESHOT")
    ∷ (31, bytes "EPOLLET")
    ∷ []

unfoldable pub e_add : Bytes → Bytes → Bytes
e_add [] evs = evs
e_add (c ∷ t_ret) evs = (c ∷ t_ret) ++ (bytes ", " ++ evs)

-- The tests, one after the other.
unfoldable pub add_flags : ℕ → Bytes → List (ℕ × Bytes) → Bytes
unfolding has_bit e_add
add_flags events t_ret [] = t_ret
add_flags events t_ret ((n, evs) ∷ rest) =
    add_flags events (if has_bit events n then e_add t_ret evs else t_ret) rest

unfoldable pub epoll_events_to_string : ℕ → Bytes
unfolding add_flags
epoll_events_to_string events = add_flags events [] flags

module _ (number address : ℕ → Bytes) where
  abbrev pub descriptor : Option ℕ → Bytes
  descriptor none = bytes "-1"
  descriptor (some fd) = number fd

  -- Of an `AsyncFileDescriptor` at an address.
  unfoldable pub print_fd : ℕ → Option ℕ → Bytes
  print_fd a fd = bytes " aFD: " ++ (address a ++ (bytes " FD: " ++ descriptor fd))

  -- Of an `AsyncCommand`, with the number of its process.
  unfoldable pub print_command : ℕ → Option ℕ → Option ℕ → Bytes
  unfolding print_fd
  print_command a fd pid = print_fd a fd ++ (bytes " mChildProcessId: " ++ descriptor pid)

  unfoldable pub print_managed : Map ℕ ℕ → Bytes
  print_managed [] = []
  print_managed ((fd, a) ∷ m) =
      bytes "{" ++ (number fd ++ (bytes ", " ++ (address a ++ (bytes "} " ++ print_managed m))))

  -- Of an `IOContext` at an address, with its epoll descriptor.
  unfoldable pub print_context : {W Op : Type 0} → ℕ → ℕ → IoContext W Op → Bytes
  unfolding print_managed
  print_context a epoll_fd s =
      bytes " ioContext: "
      ++ (address a
          ++ (bytes " epoll FD: "
              ++ (number epoll_fd
                  ++ (bytes " managed FDs: "
                      ++ (number (length s.m_managed_fd)
                          ++ (bytes " [ " ++ (print_managed s.m_managed_fd ++ bytes "]")))))))

-- The names of the flags that are set, in the order of the tests.
abbrev pub names : ℕ → List (ℕ × Bytes) → List Bytes
names events [] = []
names events ((n, evs) ∷ rest) =
    if has_bit events n then evs ∷ names events rest else names events rest

-- With a comma between any two.
abbrev pub after_comma : List Bytes → Bytes
after_comma [] = []
after_comma (evs ∷ rest) = bytes ", " ++ (evs ++ after_comma rest)

abbrev pub joined : List Bytes → Bytes
joined [] = []
joined (evs ∷ rest) = evs ++ after_comma rest

-- What has been written, and what follows.
abbrev extended : Bytes → List Bytes → Bytes
extended [] evs = joined evs
extended (c ∷ t_ret) evs = (c ∷ t_ret) ++ after_comma evs

-- The names are not empty.
abbrev AreNamed : List (ℕ × Bytes) → Type 0
AreNamed = All (λ flag. 0 < length flag.1)

extended-e_add :
    (t_ret evs : Bytes) (rest : List Bytes)
    → 0 < length evs
    → extended (e_add t_ret evs) rest ≡ extended t_ret (evs ∷ rest)
unfolding e_add
extended-e_add [] [] rest h = absurd (omega arith)
extended-e_add [] (c ∷ evs) rest h = refl
extended-e_add (d ∷ t_ret) evs rest h =
    ap (λ (bs : Bytes). d ∷ bs) (append_assoc t_ret (bytes ", " ++ evs) (after_comma rest))

add_flags-extended :
    (events : ℕ) (t_ret : Bytes) (fs : List (ℕ × Bytes))
    → AreNamed fs
    → add_flags events t_ret fs ≡ extended t_ret (names events fs)
unfolding add_flags
add_flags-extended events [] [] h = refl
add_flags-extended events (c ∷ t_ret) [] h = sym (append-nil (c ∷ t_ret))
add_flags-extended events t_ret ((n, evs) ∷ fs) h = elim (Bool-cases (has_bit events n)) [
  | inl e ↦
      rw (e, add_flags)
        (add_flags-extended events (e_add t_ret evs) fs h.1
          ∙ extended-e_add t_ret evs (names events fs) h.0)
  | inr e ↦ rw (e, add_flags) (add_flags-extended events t_ret fs h.1)
]

-- The text is the names of the flags that are set, in the order of the tests, with a comma and a
-- blank between any two.
pub epoll_events_to_string_lem :
    (events : ℕ) → epoll_events_to_string events ≡ joined (names events flags)
unfolding epoll_events_to_string
epoll_events_to_string_lem events = add_flags-extended events [] flags (omega arith)
