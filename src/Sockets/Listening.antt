-- ===== src/Sockets/Listening.antt =====
-- What `ListeningSocket::setupListener` of src/async_socket.cc leaves, on each of its ways out.
use Prim.Native.Nat.{bit_or}
use shared_state_async.Prelude.Map.{lookup, lookup-insert_self, nat_key}
use shared_state_async.Prelude.{ℕ, true, some, ◌≡◌, arith}
use shared_state_async.Errors.{ok}
use shared_state_async.Wire.Io.{fail_if}
use shared_state_async.EventLoop.{
  o_nonblock, read_events, epoll_ctl_add, manage, IoContext, Kernel, register_fd, watch_read,
  attach_readonly, control, change,
}
use shared_state_async.Sockets.{SocketCalls, register_listener, setup_socket, setup_listener}

module _ {W Op Addr : Type 0} (k : Kernel W) (os : SocketCalls W Addr) where
  -- Where every call succeeds, the listener is a new object for the socket, which the map leads to,
  -- attached to read, and reading is wanted of it, also before anyone waits for a connection.
  pub setup_listener_listens :
      (port fd flags : ℕ) (s : IoContext W Op) (w₁ w₂ w₃ w₄ w₅ w₆ w₇ : W)
      → os.socket s.kernel ≡ (some fd, w₁)
      → os.set_dual_stack fd w₁ ≡ (true, w₂)
      → os.set_reuse_address fd w₂ ≡ (true, w₃)
      → os.bind fd port w₃ ≡ (true, w₄)
      → os.listen fd w₄ ≡ (true, w₅)
      → k.fcntl_getfl fd w₅ ≡ (some flags, w₆)
      → k.fcntl_setfl fd (bit_or flags o_nonblock) w₆ ≡ (true, w₇)
      → let t = setup_listener k os port s in
        (t.0 ≡ ok s.fresh)
        × (lookup fd t.1.m_managed_fd ≡ some s.fresh)
        × ((t.1.objects s.fresh).m_fd ≡ some fd)
        × ((t.1.objects s.fresh).m_io_state ≡ read_events)
        × ((t.1.objects s.fresh).m_next_io_state.epollin ≡ true)
        × (t.1.kernel ≡ (k.epoll_ctl epoll_ctl_add (some fd) read_events w₇).1)
  unfolding setup_listener setup_socket fail_if register_listener register_fd manage watch_read
      attach_readonly control change
  setup_listener_listens port fd flags s w₁ w₂ w₃ w₄ w₅ w₆ w₇ a b c d e f g =
      let found = lookup-insert_self fd s.fresh s.m_managed_fd in
      ground (arith, a, b, c, d, e, f, g, found)
