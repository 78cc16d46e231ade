-- ===== src/Tests/Loop.antt =====
-- A small kernel, and a program that runs on it, for the theorems on the event loop.
use shared_state_async.Prelude.{
  ℕ, zero, suc, ◌+◌, ◌-◌, Bool, true, false, Option, none, some, List, [], ◌∷◌, ◌++◌, ◌==◌, leb,
  if◌then◌else◌, ◌≡◌, refl, arith,
}
use mathlib.Core.List.{append-nil}
use shared_state_async.Prelude.Map.{lookup, nat_key}
use shared_state_async.EventLoop.{
  Events, no_events, Control, epoll_ctl_add, epoll_ctl_mod, epoll_ctl_del, Kernel, IoContext,
  update, queue, change, watch_write, add_pending_op, register_fd, attach,
}
use shared_state_async.EventLoop.Interest.{IsEpoll}
use shared_state_async.EventLoop.Resuming.{IsResuming}
use shared_state_async.EventLoop.Steps.{opens, waits, watches_write, Reach, here, next}
use shared_state_async.Awaitable.{value, again, error}
use shared_state_async.Awaitable.Operations.{Connection, peer_found, not_connected}
use shared_state_async.Command.{Processes, AsyncCommand}
use shared_state_async.Sockets.{SocketCalls}
use shared_state_async.Sockets.Connecting.{CountsConnection}

-- The epoll set, the descriptors that have events, how many are open, and for how long the child
-- process still runs.
pub record Machine : Type 0 where
  pub epoll_set : ℕ → Option Events
  pub events : List ℕ
  pub open_count : ℕ
  pub runs : ℕ

abbrev pub ctl : Control → Option ℕ → Events → Machine → Bool × Machine
ctl epoll_ctl_add none e w = (false, w)
ctl epoll_ctl_add (some fd) e w = (true, record w { epoll_set = update w.epoll_set fd (some e) })
ctl epoll_ctl_mod none e w = (false, w)
ctl epoll_ctl_mod (some fd) e w = (true, record w { epoll_set = update w.epoll_set fd (some e) })
ctl epoll_ctl_del none e w = (false, w)
ctl epoll_ctl_del (some fd) e w = (true, record w { epoll_set = update w.epoll_set fd none })

abbrev pub kernel : Kernel Machine
kernel = record {
  epoll_create = λ w. (true, record w { epoll_set = λ j. none });
  interruptions = λ w. 2;
  interrupted_wait = λ n w. w;
  epoll_wait = λ n w. (some w.events, w);
  epoll_ctl = ctl;
  fcntl_getfl = λ fd w. (some 0, w);
  fcntl_setfl = λ fd flags w. (true, w);
  close_operation = λ fd w. (true, record w { open_count = w.open_count - 1 });
}

abbrev pub epoll : IsEpoll kernel
epoll = record {
  interest = λ w. w.epoll_set;
  by_create = λ w h j. refl;
  by_add = λ fd e w h j. refl;
  by_mod = λ fd e w h j. refl;
  by_del = λ fd e w j. refl;
  by_close = λ fd w h j. refl;
  by_fcntl = λ fd flags w j. (refl, refl);
  by_interruption = λ n w j. refl;
  by_wait = λ n w j. refl;
}

abbrev pub machine : Machine
machine = record { epoll_set = λ j. none; events = 3 ∷ 9 ∷ []; open_count = 4; runs = 1 }

-- An operation with rounds to go queues itself once more; at the end it asks to write.
unfoldable pub resume : ℕ → IoContext Machine ℕ → IoContext Machine ℕ
resume zero s = watch_write 0 s
resume (suc op) s = add_pending_op 0 op s

abbrev pub added : ℕ → ℕ → IoContext Machine ℕ → List ℕ
added a zero s = []
added a (suc op) s = if 0 == a then op ∷ [] else []

pub resume_adds :
    (a op : ℕ) (s : IoContext Machine ℕ) → queue a (resume op s) ≡ queue a s ++ added a op s
unfolding resume watch_write add_pending_op change
resume_adds a zero s = ground (arith, append-nil (queue a s))
resume_adds a (suc op) s = ground (arith, append-nil (queue a s))

abbrev pub resuming : IsResuming resume
resuming = record { appended = added; appends = resume_adds }

pub acts : (op : ℕ) (s : IoContext Machine ℕ) → Reach epoll s (resume op s)
unfolding resume
acts zero s = next here (watches_write 0)
acts (suc op) s = next here (waits 0 op)

abbrev pub empty : IoContext Machine ℕ
empty = record {
  m_managed_fd = [];
  objects = λ a. record {
    m_fd = none;
    m_io_state = no_events;
    m_next_io_state = no_events;
    m_pending_ops = [];
  };
  fresh = 0;
  kernel = machine;
}

-- Descriptor 3 is managed, and two operations wait on it.
abbrev pub started : IoContext Machine ℕ
started = add_pending_op 0 0 (add_pending_op 0 2 (attach kernel 0 (register_fd kernel 3 empty).1))

pub started-Reach : Reach epoll empty started
unfolding register_fd lookup
started-Reach = next (next (next here (opens 3 0 refl refl refl)) (waits 0 2)) (waits 0 0)

abbrev pub idle : IoContext Machine ℕ → IoContext Machine ℕ
idle u = u

abbrev pub connection : Connection Machine ℕ
connection = record {
  is_valid_net = λ addr. leb 1 addr;
  ipv4_to_ipv6 = λ addr. some addr;
  connect = λ addr w. (again, w);
  get_peer_name = λ w. (peer_found, w);
  read_one = λ w. (value 1, w);
}

abbrev pub wait_for : ℕ → Option ℕ → Machine → Option ℕ × Machine
wait_for zero pid w = (pid, w)
wait_for (suc n) pid w = (some 0, record w { runs = n })

abbrev pub processes : Processes Machine
processes = record {
  pipe = λ w. (some (w.open_count, w.open_count + 1), record w { open_count = w.open_count + 2 });
  fork = λ w. (some 100, w);
  pidfd_open = λ pid w. (some w.open_count, record w { open_count = w.open_count + 1 });
  kill = λ pid w. (tt, w);
  close = λ fd w. (true, record w { open_count = w.open_count - 1 });
  waitpid = λ pid w. wait_for w.runs pid w;
}

pub ctl_keeps :
    (c : Control) (fd : Option ℕ) (e : Events) (w : Machine)
    → (ctl c fd e w).1.open_count ≡ w.open_count
ctl_keeps epoll_ctl_add none e w = refl
ctl_keeps epoll_ctl_add (some fd) e w = refl
ctl_keeps epoll_ctl_mod none e w = refl
ctl_keeps epoll_ctl_mod (some fd) e w = refl
ctl_keeps epoll_ctl_del none e w = refl
ctl_keeps epoll_ctl_del (some fd) e w = refl

-- Port 0 cannot be bound. A new socket has descriptor 5.
abbrev pub sockets : SocketCalls Machine ℕ
sockets = record {
  socket = λ w.
      (some 5, record w { open_count = w.open_count + 1; epoll_set = update w.epoll_set 5 none });
  set_dual_stack = λ fd w. (true, w);
  set_reuse_address = λ fd w. (true, w);
  bind = λ fd port w. (leb 1 port, w);
  listen = λ fd w. (true, w);
  close = λ fd w. (true, record w { open_count = w.open_count - 1 });
  accept = λ w. (again, w);
  get_peer_name = λ fd w. (some 1, w);
}

-- A peer that refuses the connection.
abbrev pub refusing : Connection Machine ℕ
refusing = record connection { get_peer_name = λ w. (not_connected, w); read_one = λ w. (error, w) }

pub new_socket-none :
    (fd : ℕ) (w : Machine)
    → (sockets.socket w).0 ≡ some fd
    → (sockets.socket w).1.epoll_set fd ≡ none
new_socket-none fd w e = ground (arith, e)

abbrev pub dialling : CountsConnection kernel sockets refusing
dialling = record {
  counts = record {
    open_fds = λ w. w.open_count;
    by_fcntl = λ fd flags w. (refl, refl);
    by_ctl = ctl_keeps;
    by_close = λ fd w. refl;
  };
  epoll = epoll;
  by_socket = λ w. refl;
  is_new = new_socket-none;
  by_connect = λ addr w. (refl, refl);
  by_peer_name = λ w. (refl, refl);
  by_read = λ w. (refl, refl);
  by_close_operation = λ fd w. refl;
  adds = λ fd e w h. refl;
  deletes = λ fd e w h. refl;
}

-- The object of the process is at address 0, those of its output and input follow.
abbrev pub command : AsyncCommand
command = record { afd = 0; m_process_id = some 100; m_std_out = some 1; m_std_in = some 2 }
