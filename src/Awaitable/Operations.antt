-- ===== src/Awaitable/Operations.antt =====
-- The operations derived from `AwaitableSyscall`: src/read_operation.cc, src/write_operation.cc,
-- src/recv_operation.cc, src/send_operation.cc, src/accept_operation.cc, src/close_operation.cc,
-- src/waitpid_operation.cc and src/connect_operation.cc. The system calls are parameters.
use shared_state_async.Prelude.{
  Bool, true, false, not, ◌++◌, ◌∷◌, [], ℕ, Option, none, some, ◌==◌, if◌then◌else◌, ◌≡◌, arith, ap,
  ◌⊎◌,
}
use shared_state_async.EventLoop.{
  IoContext, add_pending_op, queue, change, watch_read, unwatch_read, watch_write, unwatch_write,
}
use shared_state_async.Awaitable.{
  Answer, value, again, error, Awaiting, should_wait, is_error, co_await, await_resume,
}
use shared_state_async.Awaitable.Laws.{co_await-suspends}

module _ {W Op A C : Type 0} (syscall : C → W → Answer A × C × W) where
  -- From the constructor of an operation that reads to its destructor: `ReadOp`, `RecvOperation`,
  -- `AcceptOperation` and `WaitpidOperation`.
  unfoldable pub awaited_read :
      Bool → (IoContext W Op → IoContext W Op) → ℕ → Op → C → IoContext W Op → Awaiting W Op A C
  unfolding co_await watch_read unwatch_read
  awaited_read multi_shot meanwhile a op d s =
      let t = co_await syscall multi_shot meanwhile a op d (watch_read a s) in
      (t.0, unwatch_read a t.1)

  -- The same of one that writes: `WriteOp`, `SendOperation` and `ConnectOperation`.
  unfoldable pub awaited_write :
      (IoContext W Op → IoContext W Op) → ℕ → Op → C → IoContext W Op → Awaiting W Op A C
  unfolding co_await watch_write unwatch_write
  awaited_write meanwhile a op d s =
      let t = co_await syscall false meanwhile a op d (watch_write a s) in
      (t.0, unwatch_write a t.1)

module _ {W : Type 0} where
  -- `CloseOperation::syscall`: where `close` asks to wait the caller is told that it is done.
  unfoldable pub close_syscall : (W → Answer ℕ × W) → Unit {0} → W → Answer ℕ × Unit {0} × W
  unfolding should_wait
  close_syscall close d w =
      let (r, w') = close w in if should_wait r then (value 0, d, w') else (r, d, w')

  -- `WaitpidOperation::syscall`; `none` stands for -1.
  unfoldable pub waitpid_syscall :
      (Option ℕ → W → Option ℕ × W) → Option ℕ → W → Answer ℕ × Option ℕ × W
  waitpid_syscall waitpid m_child_pid w =
      let (r, w') = waitpid m_child_pid w in
      elim r [
        | none ↦ (error, m_child_pid, w')
        | some n ↦ if n == 0 then (again, m_child_pid, w') else (value n, m_child_pid, w')
      ]

-- What `getpeername` gives.
pub data PeerName : Type 0 where
  peer_found not_connected peer_error : PeerName

-- The calls of `ConnectOperation` on its socket, and the checks of an address, which belong to
-- another library: the second gives the address for IPv6, if it has one.
pub record Connection (W Addr : Type 0) : Type 0 where
  pub is_valid_net : Addr → Bool
  pub ipv4_to_ipv6 : Addr → Option Addr
  pub connect : Addr → W → Answer ℕ × W
  pub get_peer_name : W → PeerName × W
  pub read_one : W → Answer ℕ × W

pub record Connecting (Addr : Type 0) : Type 0 where
  pub m_addr : Addr
  pub m_first_run : Bool

module _ {W Addr : Type 0} (c : Connection W Addr) where
  abbrev begun : Addr → Connecting Addr
  begun addr = record { m_addr = addr; m_first_run = false }

  -- The first run of `ConnectOperation::syscall`.
  unfoldable pub start_connection : Addr → W → Answer ℕ × Connecting Addr × W
  start_connection addr w =
      if not (c.is_valid_net addr) then (error, begun addr, w) else elim (c.ipv4_to_ipv6 addr) [
        | none ↦ (error, begun addr, w)
        | some ipv6 ↦ let (r, w') = c.connect ipv6 w in (r, begun ipv6, w')
      ]

  -- What follows `getpeername` in the later runs.
  unfoldable pub after_peer_name : PeerName → W → Answer ℕ × W
  after_peer_name peer_found w = (value 0, w)
  after_peer_name not_connected w = c.read_one w
  after_peer_name peer_error w = (error, w)

  unfoldable pub connect_syscall : Connecting Addr → W → Answer ℕ × Connecting Addr × W
  unfolding start_connection after_peer_name
  connect_syscall d w =
      if d.m_first_run
      then start_connection d.m_addr w
      else let (name, w') = c.get_peer_name w in
        let (r, w'') = after_peer_name name w' in (r, d, w'')

module _ {W Op : Type 0} where
  -- Closing a descriptor never suspends the coroutine and calls `close` once, whatever it answers:
  -- the context changes by this call alone. A call that would have to wait counts as done; another
  -- error is reported.
  pub close-never_suspends :
      (close : W → Answer ℕ × W) (meanwhile : IoContext W Op → IoContext W Op) (a : ℕ) (op : Op)
      (s : IoContext W Op)
      → let t = co_await (close_syscall close) false meanwhile a op tt s in
        let r = (close s.kernel).0 in
        (t.0.m_did_suspend ≡ false)
        × (t.0.m_return_value ≡ (if should_wait r then value 0 else r))
        × (t.0.m_error ≡ (if should_wait r then false else is_error r))
        × (t.1 ≡ record s { kernel = (close s.kernel).1 })
  unfolding co_await close_syscall should_wait
  close-never_suspends close meanwhile a op s = ground arith

  -- Where the call of an operation that reads has to wait, the coroutine is the last in the
  -- descriptor's queue, and reading is wanted of the descriptor, when the event loop takes over; the
  -- call is made once more when it is resumed, and reading is no longer wanted at the end.
  awaited_read-waits :
      {A C : Type 0} (syscall : C → W → Answer A × C × W) (multi_shot : Bool)
      (meanwhile : IoContext W Op → IoContext W Op) (a : ℕ) (op : Op) (d d' : C)
      (s : IoContext W Op) (w : W)
      → syscall d s.kernel ≡ (again, d', w)
      → let u = add_pending_op a op (record (watch_read a s) { kernel = w }) in
        let t = awaited_read syscall multi_shot meanwhile a op d s in
        ((u.objects a).m_next_io_state.epollin ≡ true)
        × (queue a u ≡ queue a s ++ op ∷ [])
        × (t.0
            ≡ (await_resume syscall multi_shot a op
                (record {
                  m_did_suspend = true;
                  m_return_value = again;
                  m_error = false;
                  derived = d';
                })
                (meanwhile u)).0)
        × ((t.1.objects a).m_next_io_state.epollin ≡ false)
  unfolding awaited_read add_pending_op watch_read unwatch_read change
  awaited_read-waits syscall multi_shot meanwhile a op d d' s w e = (
    ground arith,
    ground arith,
    ap (λ (x : Awaiting _ _ _ _). x.0)
        (co_await-suspends syscall multi_shot meanwhile a op d d' (watch_read a s) w e),
    ground arith,
  )

  -- A connection to an address that is not valid, or has no form for IPv6, fails with an error
  -- before any system call, whatever happens meanwhile, and writing is no longer wanted.
  pub connect_refused :
      {Addr : Type 0} (c : Connection W Addr) (meanwhile : IoContext W Op → IoContext W Op) (a : ℕ)
      (op : Op) (addr : Addr) (s : IoContext W Op)
      → (c.is_valid_net addr ≡ false) ⊎ (c.ipv4_to_ipv6 addr ≡ none)
      → let t =
          awaited_write
            (connect_syscall c)
            meanwhile
            a
            op
            (record { m_addr = addr; m_first_run = true })
            s in
        (t.0.m_return_value ≡ error)
        × (t.0.m_error ≡ true)
        × (t.1.kernel ≡ s.kernel)
        × ((t.1.objects a).m_next_io_state.epollout ≡ false)
  unfolding awaited_write co_await connect_syscall start_connection watch_write unwatch_write change
      should_wait
  connect_refused c meanwhile a op addr s h = ground arith

  -- Where `connect` to a valid address is on its way, the coroutine waits until writing is
  -- possible, and then asks for the name of the peer: the connection is made if there is one.
  -- Where the socket is not connected, a read of one byte gives the result. What would have to wait
  -- once more counts as an error, and errors are reported.
  connect-in_progress :
      {Addr : Type 0} (c : Connection W Addr) (meanwhile : IoContext W Op → IoContext W Op) (a : ℕ)
      (op : Op) (addr ipv6 : Addr) (s : IoContext W Op) (w : W)
      → c.is_valid_net addr ≡ true
      → c.ipv4_to_ipv6 addr ≡ some ipv6
      → c.connect ipv6 s.kernel ≡ (again, w)
      → let t =
          awaited_write
            (connect_syscall c)
            meanwhile
            a
            op
            (record { m_addr = addr; m_first_run = true })
            s in
        let u = meanwhile (add_pending_op a op (record (watch_write a s) { kernel = w })) in
        let (name, w') = c.get_peer_name u.kernel in
        let (r, w'') = after_peer_name c name w' in
        (t.0.m_return_value ≡ r)
        × (t.0.m_error ≡ is_error r)
        × (t.1.kernel ≡ w'')
        × ((t.1.objects a).m_next_io_state.epollout ≡ false)
  unfolding awaited_write co_await connect_syscall start_connection watch_write unwatch_write change
      should_wait
  connect-in_progress c meanwhile a op addr ipv6 s w v m e = ground (arith, e)
