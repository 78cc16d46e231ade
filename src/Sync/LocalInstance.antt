-- ===== src/Sync/LocalInstance.antt =====
-- `SharedState::localInstanceAddr` of src/sharedstate.cc: the address of the daemon on this host,
-- made by the first call and kept in a static variable. The functions on addresses are parameters.
use shared_state_async.Prelude.{ℕ, Option, none, some, ◌≡◌, refl}
use shared_state_async.Prelude.Bytes.{Bytes, bytes}

abbrev pub tcp_port : ℕ
tcp_port = 3490

module _ {Addr : Type 0} (ipv4_aton : Bytes → Addr → Addr) (set_port : ℕ → Addr → Addr)
    (blank : Addr) where
  -- The static variables, `none` before they are set: the address, and the variables after the call.
  unfoldable pub local_instance_addr : Option Addr → Addr × Option Addr
  local_instance_addr (some l_addr) = (l_addr, some l_addr)
  local_instance_addr none =
      let l_addr = set_port tcp_port (ipv4_aton (bytes "127.0.0.1") blank) in (l_addr, some l_addr)

  -- Every call gives the address that the first one gives.
  pub local_instance_addr_again :
      (s : Option Addr)
      → local_instance_addr (local_instance_addr s).1
        ≡ ((local_instance_addr s).0, (local_instance_addr s).1)
  unfolding local_instance_addr
  local_instance_addr_again none = refl
  local_instance_addr_again (some a) = refl
