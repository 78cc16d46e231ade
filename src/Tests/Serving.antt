-- ===== src/Tests/Serving.antt =====
-- Documents, transfers, the child process and the daemon at concrete inputs.
use shared_state_async.Prelude.{
  ℕ, ◌≤◌, Bool, true, false, Option, none, some, [], ◌∷◌, ◌++◌, map, length, take, drop, ◌==◌, leb,
  if◌then◌else◌, ◌≡◌, ◌⊎◌, refl, arith,
}
use shared_state_async.Prelude.Map.{lookup}
use shared_state_async.Prelude.Bytes.{Bytes, bytes, bytes_less, bytes_key}
use shared_state_async.Errors.{Result, ok, fail, throw, crash}
use shared_state_async.Wire.Message.{NetworkStats}
use shared_state_async.EventLoop.{IoContext, update, no_events}
use shared_state_async.Awaitable.{Answer, value, again, error, should_wait}
use shared_state_async.Awaitable.Transfers.{Calls, async_read, async_write}
use shared_state_async.Awaitable.Transfers.Laws.{
  IsNonBlocking, IsWoken, Moves, async_read_lem, async_write_lem,
}
use shared_state_async.Command.Child.{ChildCalls, map_pipes, arguments, is_space}
use shared_state_async.Command.Child.Laws.{IsPosix, is_end, map_pipes_lem, spelled, arguments_lem}
use shared_state_async.Serial.{to_state_slice, from_state_slice, serial_stats}
use shared_state_async.Serial.Library.{ReadsBack, without_peer, SliceFits}
use shared_state_async.Serial.Laws.{to_state_slice-from_state_slice, serial_stats-ReadsBack}
use shared_state_async.Sync.{new_stats}
use shared_state_async.Tests.Storage.{babel, received, received-HasRange}
use shared_state_async.Tests.Pipe.{Pipe, pipe_stream, ready, read_byte, write_byte}
use shared_state_async.Tests.Documents.{serializer, documented}

received-SliceFits : SliceFits received
unfolding bytes_less
received-SliceFits = (received-HasRange, ((refl, (refl, tt)), ((refl, tt), (tt, tt))))

to_state_slice-from_state_slice_example :
    to_state_slice serializer (from_state_slice serializer received) ≡ received
to_state_slice-from_state_slice_example =
    to_state_slice-from_state_slice serializer documented received received-SliceFits

abbrev measured : NetworkStats ℕ
measured = record {
  m_peer = 7;
  m_ts = 10_000;
  m_rtt_ext = 900;
  m_up_bw_mbs_ext = 54;
  m_down_bw_mbs_ext = 11;
}

serial_stats-ReadsBack_example :
    ReadsBack without_peer (serial_stats serializer) measured (new_stats 9) []
unfolding lookup
serial_stats-ReadsBack_example =
    serial_stats-ReadsBack serializer documented measured (new_stats 9) [] (omega arith) (λ k. refl)

-- A pipe that asks to wait after every call until it is woken.
abbrev Waiting : Type 0
Waiting = Pipe × Bool

abbrev answer : {A : Type 0} → Result A → Answer A
answer (ok a) = value a
answer (fail e) = error
answer throw = error
answer crash = error

abbrev stalled : {A : Type 0} → Bool → (Pipe → Result A × Pipe) → Pipe → Answer A × Waiting
stalled true f w = (again, (w, true))
stalled false f w = (answer (f w).0, ((f w).1, true))

abbrev calls : Calls Waiting
calls = record {
  read = λ n w. stalled w.1 (λ p. read_byte n p.coming p) w.0;
  write = λ buffer w. stalled w.1 (write_byte buffer) w.0;
  now = λ w. (w.0.time, w);
}

read-Moves :
    (n : ℕ) (p : Pipe) (b : Bool)
    → Moves
        (λ chunk (w : Waiting).
          (p.coming ≡ chunk ++ w.0.coming)
          × (length chunk ≤ n)
          × (length chunk ≡ 0 → (n ≡ 0) ⊎ (p.coming ≡ []))
          × (w.0.gone ≡ p.gone))
        (λ (w : Waiting). (w.0.coming ≡ p.coming) × (w.0.gone ≡ p.gone))
        (stalled b (λ p. read_byte n p.coming p) p)
read-Moves n p true = (refl, refl)
read-Moves n p false =
    let (chunk, e, split, fits, dry, same) = pipe_stream.reads n p in rw e (split, fits, dry, same)

write-Moves :
    (buffer : Bytes) (p : Pipe) (b : Bool)
    → Moves
        (λ n (w : Waiting).
          (w.0.gone ≡ p.gone ++ take n buffer)
          × (n ≤ length buffer)
          × (n ≡ 0 → buffer ≡ [])
          × (w.0.coming ≡ p.coming))
        (λ (w : Waiting). (w.0.coming ≡ p.coming) × (w.0.gone ≡ p.gone))
        (stalled b (write_byte buffer) p)
write-Moves buffer p true = (refl, refl)
write-Moves buffer p false =
    let (n, e, taken, fits, dry, same) = pipe_stream.writes buffer p in
    rw e (taken, fits, dry, same)

abbrev non_blocking : IsNonBlocking calls
non_blocking = record {
  inbox = λ w. w.0.coming;
  outbox = λ w. w.0.gone;
  reads = λ n w. read-Moves n w.0 w.1;
  writes = λ buffer w. write-Moves buffer w.0 w.1;
  now_inbox = λ w. refl;
  now_outbox = λ w. refl;
}

abbrev empty_handed : IoContext Waiting ℕ
empty_handed = record {
  m_managed_fd = [];
  objects = λ a. record {
    m_fd = none;
    m_io_state = no_events;
    m_next_io_state = no_events;
    m_pending_ops = [];
  };
  fresh = 0;
  kernel = (ready, true);
}

-- The event loop wakes the pipe.
abbrev wake : IoContext Waiting ℕ → IoContext Waiting ℕ
wake s = record s { kernel = (s.kernel.0, false) }

answered : {A : Type 0} (r : Result A) (a : A) → r ≡ ok a → should_wait (answer r) ≡ false
unfolding should_wait
answered (ok x) a e = refl
answered (fail x) a e = refl
answered throw a e = refl
answered crash a e = refl

woken : IsWoken non_blocking wake 4
woken = record {
  keeps_inbox = λ s. refl;
  keeps_outbox = λ s. refl;
  readable = λ n s e. answered _ _ (pipe_stream.reads n s.kernel.0).1;
  writable = λ buffer s e. answered _ _ (pipe_stream.writes buffer s.kernel.0).1;
}

async_read_lem_example :
    ((async_read calls wake 4 1 6 empty_handed).0 ≡ ok (take 6 ready.coming))
    × ((async_read calls wake 4 1 6 empty_handed).1.kernel.0.coming ≡ drop 6 ready.coming)
    × ((async_read calls wake 4 1 6 empty_handed).1.kernel.0.gone ≡ ready.gone)
async_read_lem_example = async_read_lem calls wake 4 1 non_blocking woken 6 empty_handed

async_write_lem_example :
    ((async_write calls wake 4 1 babel empty_handed).0 ≡ ok (length babel))
    × ((async_write calls wake 4 1 babel empty_handed).1.kernel.0.gone ≡ ready.gone ++ babel)
    × ((async_write calls wake 4 1 babel empty_handed).1.kernel.0.coming ≡ ready.coming)
async_write_lem_example = async_write_lem calls wake 4 1 non_blocking woken babel empty_handed

-- The open files of a child process, by name.
abbrev Files : Type 0
Files = ℕ → Option Bytes

abbrev shared : ℕ → Option Bytes → Files → Files
shared b (some f) w = update w b (some f)
shared b none w = w

abbrev child_calls : ChildCalls Files
child_calls = record {
  close = λ fd w. update w fd none;
  dup2 = λ a b w. shared b (w a) w;
  execvp = λ file args w. (true, w);
}

abbrev posix : IsPosix child_calls Bytes
posix = record { file = λ w. w; by_close = λ fd j w. refl; by_dup2 = λ a b j f w e. rw e refl }

abbrev files : Files
files j =
    if j == 3
    then some (bytes "from parent")
    else if j == 6
    then some (bytes "to parent")
    else if leb j 6
    then some (bytes "terminal")
    else none

map_pipes_lem_example : posix.file (map_pipes child_calls (3, 4) (5, 6) files) 1 ≡ (
    if 1 == 0
    then some (bytes "from parent")
    else if 1 == 1
    then some (bytes "to parent")
    else if is_end (3, 4) (5, 6) 1
    then none
    else posix.file files 1)
map_pipes_lem_example =
    map_pipes_lem child_calls posix (3, 4) (5, 6) (bytes "from parent") (bytes "to parent") files
      (record { ends = omega arith; above = omega arith }) refl refl 1

arguments_lem_example :
    arguments
      (bytes "  " ++ spelled ((bytes "ls", bytes " ") ∷ (bytes "-l", bytes "  ") ∷ []) (bytes "x"))
    ≡ map
        (λ (item : Bytes × Bytes). item.0)
        ((bytes "ls", bytes " ") ∷ (bytes "-l", bytes "  ") ∷ [])
      ++ (bytes "x" ∷ [])
unfolding is_space
arguments_lem_example =
    arguments_lem (bytes "  ") ((bytes "ls", bytes " ") ∷ (bytes "-l", bytes "  ") ∷ []) (bytes "x")
      (refl, (refl, tt))
      (
        (λ e. cc e, (refl, (refl, tt)), λ e. cc e, (refl, tt)),
        ((λ e. cc e, (refl, (refl, tt)), λ e. cc e, (refl, (refl, tt))), tt),
      )
      (refl, tt)
