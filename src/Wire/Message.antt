-- ===== src/Wire/Message.antt =====
-- `NetworkMessage`, `NetworkStats`, `sendNetworkMessage` and `receiveNetworkMessage` of
-- include/sharedstate.hh and src/sharedstate.cc.
pub mod Frame
pub mod Bandwidth
use shared_state_async.Prelude.{
  ℕ, zero, suc, ◌+◌, ◌-◌, ◌*◌, ◌/◌, ◌%◌, ◌^◌, Bool, not, ◌||◌, Option, [], ◌∷◌, ◌++◌, length, take,
  drop, replicate, ltb, ◌==◌, if◌then◌else◌,
}
use shared_state_async.Prelude.Bytes.{Bytes}
use shared_state_async.Errors.{Result, ok, crash, bad_message, message_size}
use shared_state_async.State.Types.{data_type_name_max_lenght}
use shared_state_async.Wire.Io.{Io, pure, lift, fail_if, ◌>>=◌, ◌>>◌}
use shared_state_async.Wire.Endian.{Endian, store32, load32, htonl, ntohl}
use shared_state_async.Wire.Socket.{System, recv, send}

abbrev pub data_max_lenght : ℕ
data_max_lenght = 1024 * 1024

pub record NetworkMessage : Type 0 where
  pub m_type_name : Bytes
  pub m_data : Bytes

-- Times in nanoseconds (`m_ts`) and microseconds (`m_rtt_ext`), bandwidths in Mbit/s.
pub record NetworkStats (Addr : Type 0) : Type 0 where
  pub m_peer : Addr
  pub m_ts : ℕ
  pub m_rtt_ext : ℕ
  pub m_up_bw_mbs_ext : ℕ
  pub m_down_bw_mbs_ext : ℕ

-- What a variable holds after `recv` has written the bytes read over its first value.
abbrev pub overlay : Bytes → Bytes → Bytes
overlay read memory = read ++ drop (length read) memory

-- `MbitPerSec`, whose division is undefined for no microseconds; the result is at least 1.
unfoldable pub mbit_per_sec : ℕ → ℕ → Result ℕ
mbit_per_sec byte_count zero = crash
mbit_per_sec byte_count (suc m) = let q = byte_count * 8 / suc m in ok (if ltb 1 q then q else 1)

abbrev pub to_uint32 : Result ℕ → Result ℕ
to_uint32 (ok q) = ok (q % 2 ^ 32)
to_uint32 r = r

-- The estimation from two readings of the clock in nanoseconds, kept in a `uint32_t`; the old
-- value stays where the clock has not advanced.
unfoldable pub bandwidth : ℕ → ℕ → ℕ → ℕ → Result ℕ
bandwidth byte_count begin_tp end_tp old =
    if ltb begin_tp end_tp
    then to_uint32 (mbit_per_sec byte_count ((end_tp - begin_tp) / 1000))
    else ok old

-- The value of a one-byte variable.
abbrev pub first_byte : Bytes → ℕ
first_byte [] = 0
first_byte (b ∷ _) = b

-- What `receiveNetworkMessage` knows before it estimates the bandwidth.
pub record Received : Type 0 where
  pub network_message : NetworkMessage
  pub total_received_bytes : ℕ
  pub recv_btp : ℕ
  pub recv_etp : ℕ

module _ {W : Type 0} (sys : System W) (endian : Endian) where
  unfoldable pub clock : Io W ℕ
  clock w = (ok (sys.now w).0, (sys.now w).1)

  -- The part of `receiveNetworkMessage` that talks to the peer, to the acknowledgement.
  unfoldable pub receive_bytes : Io W Received
  receive_bytes = do
    recv_btp ← clock
    l ← recv sys 1
    let data_type_name_lenght = first_byte (overlay l (0 ∷ []))
    fail_if (ltb data_type_name_lenght 1 || ltb data_type_name_max_lenght data_type_name_lenght)
        bad_message
    n ← recv sys data_type_name_lenght
    d ← recv sys 4
    let data_lenght = ntohl endian (load32 endian (overlay d (0 ∷ 0 ∷ 0 ∷ 0 ∷ [])))
    fail_if (ltb data_lenght 2 || ltb data_max_lenght data_lenght) bad_message
    p ← recv sys data_lenght
    recv_etp ← clock
    let total = length l + length n + length d + length p
    send sys (store32 endian (htonl endian (total % 2 ^ 32)))
    pure (record {
      network_message = record {
        m_type_name = overlay n (replicate data_type_name_lenght 0);
        m_data = overlay p (replicate data_lenght 0);
      };
      total_received_bytes = total;
      recv_btp = recv_btp;
      recv_etp = recv_etp;
    })

  -- The message, the statistics with the estimation of the download bandwidth, and the number of
  -- bytes received.
  unfoldable pub receive_network_message :
      {Addr : Type 0} → NetworkStats Addr → Io W (NetworkMessage × NetworkStats Addr × ℕ)
  receive_network_message net_stats = do
    r ← receive_bytes
    bw ← lift (bandwidth r.total_received_bytes r.recv_btp r.recv_etp net_stats.m_down_bw_mbs_ext)
    pure (r.network_message, record net_stats { m_down_bw_mbs_ext = bw }, r.total_received_bytes)

  -- The part of `sendNetworkMessage` that talks to the peer: the bytes sent, and the times.
  unfoldable pub send_bytes : NetworkMessage → Io W (ℕ × ℕ × ℕ)
  send_bytes net_msg = do
    send_btp ← clock
    let data_type_len = length net_msg.m_type_name % 256
    a ← send sys (data_type_len ∷ [])
    b ← send sys (take data_type_len net_msg.m_type_name)
    c ← send sys (store32 endian (htonl endian (length net_msg.m_data % 2 ^ 32)))
    d ← send sys net_msg.m_data
    ack ← recv sys 4
    ack_etp ← clock
    let total_ack_bytes = htonl endian (load32 endian (overlay ack (0 ∷ 0 ∷ 0 ∷ 0 ∷ [])))
    fail_if (not (total_ack_bytes == a + b + c + d)) message_size
    pure (a + b + c + d, send_btp, ack_etp)

  unfoldable pub send_network_message :
      {Addr : Type 0} → NetworkMessage → NetworkStats Addr → Io W (NetworkStats Addr × ℕ)
  send_network_message net_msg net_stats = do
    r ← send_bytes net_msg
    bw ← lift (bandwidth r.0 r.1 r.2 net_stats.m_up_bw_mbs_ext)
    pure (record net_stats { m_up_bw_mbs_ext = bw }, r.0)
