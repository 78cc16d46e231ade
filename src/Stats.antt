-- ===== src/Stats.antt =====
-- `SharedState::collectStat` of src/sharedstate.cc: the statistics of the last synchronizations with
-- each peer, kept in a file. The file locking, which is off by default, is left out.
pub mod Laws
use shared_state_async.Prelude.{
  ℕ, ◌+◌, ◌-◌, ◌*◌, ◌%◌, ◌^◌, Bool, Option, none, some, List, [], ◌∷◌, ◌++◌, length, drop, ltb,
  if◌then◌else◌,
}
use shared_state_async.Prelude.Map.{Map, lookup, insert, map_values}
use shared_state_async.Prelude.Bytes.{Bytes, bytes_key}
use shared_state_async.Errors.{Error, io_error}
use shared_state_async.Wire.Message.{NetworkStats}

abbrev pub net_stat_max_records : ℕ
net_stat_max_records = 10

-- 30 minutes in nanoseconds
abbrev pub net_stat_max_age : ℕ
net_stat_max_age = 30 * 60 * 1_000_000_000

-- The statistics by peer, `none` where the file does not open for reading.
abbrev pub StatFile : Type 0 → Type 0
StatFile Addr = Option (Map Bytes (List (NetworkStats Addr)))

-- `std::max<int>` of an unsigned difference of 64 bits, cast to 32 bits with a sign, and 0
unfoldable pub skip : ℕ → ℕ
skip size =
    let m = (size + (2 ^ 64 - net_stat_max_records)) % 2 ^ 64 % 2 ^ 32 in
    if ltb m (2 ^ 31) then m else 0

module _ {Addr : Type 0} where
  -- Records are dropped from the front while they are too old.
  unfoldable pub drop_old : ℕ → List (NetworkStats Addr) → List (NetworkStats Addr)
  drop_old now [] = []
  drop_old now (stat ∷ stats) =
      let rest = drop_old now stats in
      if ltb (stat.m_ts + net_stat_max_age) now then rest else stat ∷ stats

  unfoldable pub prune : ℕ → List (NetworkStats Addr) → List (NetworkStats Addr)
  prune now peer_stats = drop_old now (drop (skip (length peer_stats)) peer_stats)

  -- `stats[tPeerStr].push_back(netStat)`
  unfoldable pub push_back :
      Bytes
      → NetworkStats Addr
      → Map Bytes (List (NetworkStats Addr))
      → Map Bytes (List (NetworkStats Addr))
  push_back peer stat stats = elim (lookup peer stats) [
    | none ↦ insert peer (stat ∷ []) stats
    | some peer_stats ↦ insert peer (peer_stats ++ (stat ∷ [])) stats
  ]

  abbrev pub read_stats : StatFile Addr → Map Bytes (List (NetworkStats Addr))
  read_stats none = []
  read_stats (some stats) = stats

  -- What is handed to `rs_error_bubble_or_exit`, which ends the process where the caller gives no
  -- place for it, the statistics as completed, and the file after the call, from the time, whether
  -- the file opens for writing and the serializer's `ctx.mOk`. A document that is not written
  -- leaves an empty file. The call returns true also after the error.
  unfoldable pub collect_stat :
      (Addr → Addr)
      → (Addr → Bytes)
      → ℕ
      → Bool
      → Bool
      → NetworkStats Addr
      → StatFile Addr
      → (Option Error × NetworkStats Addr) × StatFile Addr
  collect_stat ipv4_to_ipv6 ip_to_string now is_open m_ok net_stat file =
      let stat : NetworkStats Addr = record net_stat {
        m_peer = ipv4_to_ipv6 net_stat.m_peer;
        m_ts = now;
      } in
      let stats =
        map_values (prune now) (push_back (ip_to_string stat.m_peer) stat (read_stats file)) in
      if is_open
      then ((none, stat), some (if m_ok then stats else []))
      else ((some io_error, stat), file)
