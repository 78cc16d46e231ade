-- ===== src/Sockets.antt =====
-- Opening sockets: `ConnectingSocket::connect`, `ListeningSocket::setupListener`,
-- `ListeningSocket::accept` and `AsyncSocket::getPeerAddr` of src/async_socket.cc.
pub mod Listening
pub mod Connecting
use shared_state_async.Prelude.{ℕ, Bool, true, false, not, Option, none, some, ◌==◌, if◌then◌else◌}
use shared_state_async.Errors.{Error, Result, ok, fail, throw, crash, errno}
use shared_state_async.Wire.Io.{Io, pure, lift, fail_if, continue, ◌>>=◌, ◌>>◌}
use shared_state_async.EventLoop.{
  IoContext, Kernel, register_fd, attach, attach_readonly, attach_write_only, watch_read, close_afd,
}
use shared_state_async.EventLoop.Counting.{in_kernel, managed_fd}
use shared_state_async.Awaitable.{Answer, value, again, error, AwaitableSyscall, Awaiting}
use shared_state_async.Awaitable.Operations.{
  awaited_read, awaited_write, Connection, connect_syscall,
}

-- The system calls on sockets; `none` and `false` stand for
-- a failure.
pub record SocketCalls (W Addr : Type 0) : Type 0 where
  pub socket : W → Option ℕ × W
  pub set_dual_stack : ℕ → W → Bool × W
  pub set_reuse_address : ℕ → W → Bool × W
  pub bind : ℕ → ℕ → W → Bool × W
  pub listen : ℕ → W → Bool × W
  pub close : ℕ → W → Bool × W
  pub accept : W → Answer ℕ × W
  pub get_peer_name : Option ℕ → W → Option Addr × W

module _ {W Op Addr : Type 0} (k : Kernel W) (os : SocketCalls W Addr) where
  -- A call whose failure is returned.
  abbrev pub demand : (W → Bool × W) → Io (IoContext W Op) (Unit {0})
  demand call = in_kernel call >>= λ done. fail_if (not done) errno

  -- The last part of `setupListener`; the listener waits for connections.
  unfoldable pub register_listener : ℕ → Result ℕ → Io (IoContext W Op) ℕ
  register_listener fd (ok a) s = (ok a, watch_read a (attach_readonly k a s))
  register_listener fd (fail e) s = (in_kernel (os.close fd) >>= λ closed. lift (fail e)) s
  register_listener fd throw s = (throw, s)
  register_listener fd crash s = (crash, s)

  unfoldable pub setup_socket : ℕ → ℕ → Io (IoContext W Op) ℕ
  unfolding register_listener fail_if
  setup_socket port fd = do
    demand (os.set_dual_stack fd)
    demand (os.set_reuse_address fd)
    demand (os.bind fd port)
    demand (os.listen fd)
    λ s. register_listener fd (register_fd k fd s).0 (register_fd k fd s).1

  unfoldable pub setup_listener : ℕ → Io (IoContext W Op) ℕ
  unfolding setup_socket
  setup_listener port = in_kernel os.socket >>= λ fd. elim fd [
    | none ↦ lift (fail errno)
    | some n ↦ setup_socket port n
  ]

  -- A failure of `accept`, which gets no `errbub`, ends the process.
  unfoldable pub accepted : Answer ℕ → Io (IoContext W Op) ℕ
  accepted (value fd) = managed_fd k (attach k) fd
  accepted again = lift crash
  accepted error = lift crash

  unfoldable pub accept : (IoContext W Op → IoContext W Op) → ℕ → Op → Io (IoContext W Op) ℕ
  unfolding awaited_read accepted
  accept meanwhile listener op s =
      let t =
        awaited_read (λ (d : Unit {0}) w. let (r, w') = os.accept w in (r, d, w')) false meanwhile
          listener op tt s in
      accepted t.0.m_return_value t.1

  unfoldable pub get_peer_addr : ℕ → Io (IoContext W Op) Addr
  get_peer_addr a s =
      let (r, w) = os.get_peer_name (s.objects a).m_fd s.kernel in
      elim r [
        | none ↦ (fail errno, record s { kernel = w })
        | some addr ↦ (ok addr, record s { kernel = w })
      ]

  -- After `ConnectOperation`: a socket that is not connected is closed.
  unfoldable pub connected : ℕ → Answer ℕ → Io (IoContext W Op) ℕ
  connected a (value n) s = (ok a, s)
  connected a again s = (fail errno, (close_afd k (some a) s).1)
  connected a error s = (fail errno, (close_afd k (some a) s).1)

  unfoldable pub connect_socket :
      Connection W Addr → (IoContext W Op → IoContext W Op) → Op → Addr → ℕ → Io (IoContext W Op) ℕ
  unfolding awaited_write connect_syscall connected
  connect_socket c meanwhile op address a s =
      let t =
        awaited_write (connect_syscall c) meanwhile a op
          (record { m_addr = address; m_first_run = true }) s in
      connected a t.0.m_return_value t.1

  unfoldable pub connect :
      Connection W Addr → (IoContext W Op → IoContext W Op) → Op → Addr → Io (IoContext W Op) ℕ
  unfolding connect_socket
  connect c meanwhile op address = in_kernel os.socket >>= λ fd. elim fd [
    | none ↦ lift (fail errno)
    | some n ↦ managed_fd k (attach_write_only k) n >>= connect_socket c meanwhile op address
  ]
