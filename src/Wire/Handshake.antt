-- ===== src/Wire/Handshake.antt =====
-- `serverHandShake` and `clientHandShake` of src/sharedstate.cc: both sides exchange the version of
-- the wire protocol and time it.
pub mod Laws
use shared_state_async.Prelude.{ℕ, ◌-◌, ◌/◌, not, [], ◌∷◌, ◌==◌}
use shared_state_async.Errors.{protocol_error}
use shared_state_async.Wire.Io.{Io, pure, fail_if, ◌>>=◌, ◌>>◌}
use shared_state_async.Wire.Endian.{Endian, store32, load32, htonl}
use shared_state_async.Wire.Socket.{System, recv, send}
use shared_state_async.Wire.Message.{NetworkStats, overlay, clock}

abbrev pub wire_proto_version : ℕ
wire_proto_version = 1

module _ {W Addr : Type 0} (sys : System W) (endian : Endian) where
  -- The last version that comes is read and not tested.
  unfoldable pub server_hand_shake : NetworkStats Addr → Io W (NetworkStats Addr)
  server_hand_shake net_stats = do
    v ← recv sys 4
    let wire_proto_ver = htonl endian (load32 endian (overlay v (0 ∷ 0 ∷ 0 ∷ 0 ∷ [])))
    fail_if (not (wire_proto_version == wire_proto_ver)) protocol_error
    ver_btp ← clock sys endian
    send sys (store32 endian (htonl endian wire_proto_version))
    recv sys 4
    ver_etp ← clock sys endian
    pure (record net_stats { m_rtt_ext = (ver_etp - ver_btp) / 1000 })

  -- The variable that the server's version is read into holds the client's before. What goes back
  -- at the end is the converted version.
  unfoldable pub client_hand_shake : NetworkStats Addr → Io W (NetworkStats Addr)
  client_hand_shake net_stats = do
    ver_btp ← clock sys endian
    let memory = store32 endian (htonl endian wire_proto_version)
    send sys memory
    v ← recv sys 4
    ver_etp ← clock sys endian
    let wire_proto_ver = htonl endian (load32 endian (overlay v memory))
    fail_if (not (wire_proto_version == wire_proto_ver)) protocol_error
    send sys (store32 endian wire_proto_ver)
    pure (record net_stats { m_rtt_ext = (ver_etp - ver_btp) / 1000 })
