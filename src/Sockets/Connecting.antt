-- ===== src/Sockets/Connecting.antt =====
-- The descriptors that `ConnectingSocket::connect` of src/async_socket.cc leaves open.
use shared_state_async.Prelude.{
  ℕ, suc, ◌-◌, true, ◌==◌, none, some, ◌≡◌, ◌≢◌, ◌∙◌, refl, sym, ap, arith, Option-cases,
  Bool-cases, inl, inr,
}
use shared_state_async.Prelude.Map.{lookup, lookup-insert_self, nat_key}
use shared_state_async.Errors.{Result, ok, fail, throw, crash}
use shared_state_async.Wire.Io.{continue, ◌>>=◌}
use shared_state_async.EventLoop.{
  epoll_ctl_add, epoll_ctl_del, write_events, Events, no_events, IoContext, Kernel, register_fd,
  attach_write_only, control, change, watch_write, unwatch_write, add_pending_op, close_afd, forget,
}
use shared_state_async.EventLoop.Interest.{IsEpoll}
use shared_state_async.EventLoop.Managed.{new_object, register_fd-Registered}
use shared_state_async.EventLoop.Counting.{
  managed_fd, or_exit, CountsOpen, Leaves, attach_write_only-KeepsOpen, register_fd-open,
}
use shared_state_async.Awaitable.{Answer, value, again, error}
use shared_state_async.Awaitable.Operations.{
  PeerName, awaited_write, Connection, Connecting, connect_syscall, start_connection,
  after_peer_name, peer_found, not_connected, peer_error,
}
use shared_state_async.Awaitable.Keeping.{KeptByParts, awaited_write-kept}
use shared_state_async.Command.Accounting.{opened}
use shared_state_async.Sockets.{SocketCalls, connected, connect_socket, connect}

-- What the calls for a connection change of the number of open descriptors and of the epoll set: a
-- new socket is not in the set, and what is not in it can be added, what is in it removed.
pub record CountsConnection {W Addr : Type 0} (k : Kernel W) (os : SocketCalls W Addr)
    (c : Connection W Addr) : Type 0 where
  pub counts : CountsOpen k os.close
  pub epoll : IsEpoll k
  pub by_socket :
      (w : W) → counts.open_fds (os.socket w).1 ≡ opened 1 (os.socket w).0 (counts.open_fds w)
  pub is_new :
      (fd : ℕ) (w : W) → (os.socket w).0 ≡ some fd → epoll.interest (os.socket w).1 fd ≡ none
  pub by_connect :
      (addr : Addr) (w : W)
      → (counts.open_fds (c.connect addr w).1 ≡ counts.open_fds w)
        × (epoll.interest (c.connect addr w).1 ≡ epoll.interest w)
  pub by_peer_name :
      (w : W)
      → (counts.open_fds (c.get_peer_name w).1 ≡ counts.open_fds w)
        × (epoll.interest (c.get_peer_name w).1 ≡ epoll.interest w)
  pub by_read :
      (w : W)
      → (counts.open_fds (c.read_one w).1 ≡ counts.open_fds w)
        × (epoll.interest (c.read_one w).1 ≡ epoll.interest w)
  pub by_close_operation :
      (fd : ℕ) (w : W) → counts.open_fds (k.close_operation (some fd) w).1 ≡ counts.open_fds w - 1
  pub adds :
      (fd : ℕ) (e : Events) (w : W)
      → epoll.interest w fd ≡ none
      → (k.epoll_ctl epoll_ctl_add (some fd) e w).0 ≡ true
  pub deletes :
      (fd : ℕ) (e : Events) (w : W)
      → epoll.interest w fd ≢ none
      → (k.epoll_ctl epoll_ctl_del (some fd) e w).0 ≡ true

-- What the calls of `ConnectOperation` do not change.
module _ {W Addr X : Type 0} (c : Connection W Addr) (f : W → X)
    (by_connect : (addr : Addr) (w : W) → f (c.connect addr w).1 ≡ f w)
    (by_peer_name : (w : W) → f (c.get_peer_name w).1 ≡ f w)
    (by_read : (w : W) → f (c.read_one w).1 ≡ f w) where
  after_peer_name-same : (p : PeerName) (w : W) → f (after_peer_name c p w).1 ≡ f w
  unfolding after_peer_name
  after_peer_name-same peer_found w = refl
  after_peer_name-same not_connected w = by_read w
  after_peer_name-same peer_error w = refl

  start_connection-same : (addr : Addr) (w : W) → f (start_connection c addr w).2 ≡ f w
  unfolding start_connection
  start_connection-same addr w = elim (Bool-cases (c.is_valid_net addr)) [
    | inl v ↦ elim (Option-cases (c.ipv4_to_ipv6 addr)) [
      | inl e ↦ rw (v, e, start_connection) refl
      | inr (ipv6, e) ↦ rw (v, e, start_connection) (by_connect ipv6 w)
    ]
    | inr v ↦ rw (v, start_connection) refl
  ]

  connect_syscall-same : (d : Connecting Addr) (w : W) → f (connect_syscall c d w).2 ≡ f w
  unfolding connect_syscall
  connect_syscall-same d w = elim (Bool-cases d.m_first_run) [
    | inl first ↦ rw (first, connect_syscall) (start_connection-same d.m_addr w)
    | inr later ↦
        simp (later, connect_syscall)
          (after_peer_name-same (c.get_peer_name w).0 (c.get_peer_name w).1 ∙ by_peer_name w)
  ]

module _ {W Addr : Type 0} {k : Kernel W} {os : SocketCalls W Addr} {c : Connection W Addr}
    (law : CountsConnection k os c) where
  abbrev pub count : W → ℕ
  count = law.counts.open_fds

  -- The object at this address is the open one of this descriptor, which the kernel watches, and so
  -- many descriptors are open.
  abbrev pub Held : {Op : Type 0} → ℕ → ℕ → ℕ → IoContext W Op → Type 0
  Held fd a n s =
      (lookup fd s.m_managed_fd ≡ some a)
      × ((s.objects a).m_fd ≡ some fd)
      × (count s.kernel ≡ n)
      × (law.epoll.interest s.kernel fd ≢ none)

  module _ {Op : Type 0} where
    close_afd-Held :
        (fd a n : ℕ) (s : IoContext W Op)
        → Held fd a (suc n) s
        → count (close_afd k (some a) s).1.kernel ≡ n
    unfolding close_afd forget
    close_afd-Held fd a n s h =
        let d = k.epoll_ctl epoll_ctl_del (some fd) no_events s.kernel in
        let gone = law.deletes fd no_events s.kernel h.3 in
        let left = law.by_close_operation fd d.1 in
        let same = law.counts.by_ctl epoll_ctl_del (some fd) no_events s.kernel in
        let done : count (k.close_operation (some fd) d.1).1 ≡ n = omega (arith, left, same, h.2) in
        let me : (a == a) ≡ true = ground arith in
        elim (Bool-cases (k.close_operation (some fd) d.1).0) [
          | inl closed ↦ rw (h.1, h.0, close_afd, me, h.1, gone, closed) done
          | inr failed ↦ rw (h.1, h.0, close_afd, me, h.1, gone, failed) done
        ]

    connected-Leaves :
        (fd a n : ℕ) (r : Answer ℕ) (s : IoContext W Op)
        → Held fd a (suc n) s
        → Leaves count (suc n) n (connected k os a r s)
    unfolding connected
    connected-Leaves fd a n (value m) s h = h.2
    connected-Leaves fd a n again s h = close_afd-Held fd a n s h
    connected-Leaves fd a n error s h = close_afd-Held fd a n s h

    -- After a registration that succeeds.
    managed-Held :
        (fd n a : ℕ) (s : IoContext W Op)
        → count s.kernel ≡ n
        → law.epoll.interest s.kernel fd ≡ none
        → (register_fd k fd s).0 ≡ ok a
        → Held fd a n (attach_write_only k a (register_fd k fd s).1)
    unfolding attach_write_only control change new_object
    managed-Held fd n a s h new e =
        let t = (register_fd k fd s).1 in
        let r = register_fd-Registered law.epoll fd a s e in
        let here : (t.objects a).m_fd ≡ some fd = ground (arith, r.in_place a, r.new_address) in
        let added = law.adds fd write_events t.kernel (r.same_set fd ∙ new) in
        let watched = law.epoll.by_add fd write_events t.kernel added fd in
        (
          ap (lookup fd) r.in_map
              ∙ lookup-insert_self fd s.fresh s.m_managed_fd
              ∙ ap some (sym r.new_address),
          ground (arith, here),
          attach_write_only-KeepsOpen law.counts a t ∙ register_fd-open law.counts fd s ∙ h,
          rw here (ground (arith, watched)),
        )

    write-Held :
        (fd a n : ℕ) (s : IoContext W Op)
        → Held fd a n s
        → Held fd a n (watch_write a s) × Held fd a n (unwatch_write a s)
    unfolding watch_write unwatch_write change
    write-Held fd a n s h =
        ((h.0, ground (arith, h.1), h.2, h.3), (h.0, ground (arith, h.1), h.2, h.3))

    queue-Held :
        (fd a n : ℕ) (op : Op) (s : IoContext W Op)
        → Held fd a n s
        → Held fd a n (add_pending_op a op s)
    unfolding add_pending_op change
    queue-Held fd a n op s h = (h.0, ground (arith, h.1), h.2, h.3)

    -- What runs while the coroutine waits neither closes this socket nor changes how many are open.
    abbrev pub KeepsHeld : (IoContext W Op → IoContext W Op) → ℕ → ℕ → ℕ → Type 0
    KeepsHeld meanwhile fd a n = (s : IoContext W Op) → Held fd a n s → Held fd a n (meanwhile s)

    connect_syscall-Held :
        (meanwhile : IoContext W Op → IoContext W Op) (fd a n : ℕ) (op : Op)
        → KeepsHeld meanwhile fd a n
        → KeptByParts (connect_syscall c) meanwhile a op (Held fd a n)
    connect_syscall-Held meanwhile fd a n op keep = record {
      by_watch = write-Held fd a n;
      by_queue = queue-Held fd a n op;
      by_call = λ d s h. (
        h.0,
        h.1,
        connect_syscall-same c count (λ x w. (law.by_connect x w).0) (λ w. (law.by_peer_name w).0)
              (λ w. (law.by_read w).0) d s.kernel
            ∙ h.2,
        rw
            (connect_syscall-same c law.epoll.interest (λ x w. (law.by_connect x w).1)
              (λ w. (law.by_peer_name w).1) (λ w. (law.by_read w).1) d s.kernel)
            h.3,
      );
      by_loop = keep;
    }

    connect_socket-Leaves :
        (meanwhile : IoContext W Op → IoContext W Op) (op : Op) (address : Addr) (fd a n : ℕ)
        (s : IoContext W Op)
        → KeepsHeld meanwhile fd a (suc n)
        → Held fd a (suc n) s
        → Leaves count (suc n) n (connect_socket k os c meanwhile op address a s)
    unfolding connect_socket
    connect_socket-Leaves meanwhile op address fd a n s keep h =
        let start : Connecting Addr = record { m_addr = address; m_first_run = true } in
        let t = awaited_write (connect_syscall c) meanwhile a op start s in
        connected-Leaves fd a n t.0.m_return_value t.1 (
          awaited_write-kept (connect_syscall c) meanwhile a op (Held fd a (suc n))
            (connect_syscall-Held meanwhile fd a (suc n) op keep) start s h)

    register-Leaves :
        (meanwhile : IoContext W Op → IoContext W Op) (op : Op) (address : Addr) (fd n : ℕ)
        (s : IoContext W Op)
        → KeepsHeld meanwhile fd s.fresh (suc n)
        → count s.kernel ≡ suc n
        → law.epoll.interest s.kernel fd ≡ none
        → (r : Result ℕ) → (register_fd k fd s).0 ≡ r
        → Leaves count (suc n) n (
            ((λ u. continue (or_exit r) (λ a v. (ok a, attach_write_only k a v)) u)
                >>= connect_socket k os c meanwhile op address)
              (register_fd k fd s).1)
    register-Leaves meanwhile op address fd n s keep h new (ok a) e =
        let held = managed-Held fd (suc n) a s h new e in
        let address_of = (register_fd-Registered law.epoll fd a s e).new_address in
        let same : KeepsHeld meanwhile fd a (suc n) = rw address_of keep in
        connect_socket-Leaves meanwhile op address fd a n
          (attach_write_only k a (register_fd k fd s).1) same held
    register-Leaves meanwhile op address fd n s keep h new (fail x) e = tt
    register-Leaves meanwhile op address fd n s keep h new throw e = tt
    register-Leaves meanwhile op address fd n s keep h new crash e = tt

    -- Where what runs while the coroutine waits keeps the socket open and the number of open
    -- descriptors, `ConnectingSocket::connect` leaves one descriptor more open after a success, and
    -- as many as before after each failure that it reports: an address that is not valid, a
    -- connection that is refused, and a socket that cannot be opened.
    pub connect-Leaves :
        (meanwhile : IoContext W Op → IoContext W Op) (op : Op) (address : Addr)
        (s : IoContext W Op)
        → ((fd : ℕ) → KeepsHeld meanwhile fd s.fresh (suc (count s.kernel)))
        → Leaves count
            (suc (count s.kernel))
            (count s.kernel)
            (connect k os c meanwhile op address s)
    unfolding connect managed_fd
    connect-Leaves meanwhile op address s keep =
        let made = law.by_socket s.kernel in
        elim (Option-cases (os.socket s.kernel).0) [
          | inl e ↦ rw (e, connect) (ground (arith, made, e))
          | inr (fd, e) ↦
              let opened_one : count (os.socket s.kernel).1 ≡ suc (count s.kernel) =
                ground (arith, made, e) in
              rw (e, connect, managed_fd)
                (register-Leaves meanwhile op address fd (count s.kernel)
                  (record s { kernel = (os.socket s.kernel).1 }) (keep fd) opened_one
                  (law.is_new fd s.kernel e) _ refl)
        ]
