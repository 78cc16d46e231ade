-- ===== src/Serial.antt =====
-- The JSON forms of src/sharedstate.cc: `serial_process` of a state entry, of the configuration of
-- a type and of the statistics of a peer, and `NetworkMessage::fromStateSlice` and `toStateSlice`.
-- The functions of the serializer library, its documents and its text are parameters.
pub mod Library
pub mod Laws
use shared_state_async.Prelude.{ℕ, []}
use shared_state_async.Prelude.Int.{ℤ, pos, pos_part}
use shared_state_async.Prelude.Bytes.{Bytes, bytes}
use shared_state_async.State.{DataTypeConf, StateEntry, StateSlice}
use shared_state_async.Wire.Message.{NetworkStats}

pub data SerializeJob : Type 0 where
  to_json from_json : SerializeJob

-- A `serial_process` takes a variable and the context, and leaves both.
abbrev pub Serial : Type 0 → Type 0 → Type 0
Serial Ctx A = SerializeJob → A × Ctx → A × Ctx

-- One that processes the member of this name.
abbrev pub Named : Type 0 → Type 0 → Type 0
Named Ctx A = Bytes → Serial Ctx A

-- `RsTypeSerializer::serial_process` for the types of the members, the context of a new document,
-- and the text of a document.
pub record Serializer (Ctx Json : Type 0) : Type 0 where
  pub text : Named Ctx Bytes
  pub int64 : Named Ctx ℤ
  pub uint32 : Named Ctx ℕ
  pub json : Named Ctx Json
  pub slice : Serial Ctx (StateEntry Json) → Named Ctx (StateSlice Json)
  pub context : Ctx
  pub print : Ctx → Bytes
  pub parse : Bytes → Ctx

module _ {Ctx Json : Type 0} (r : Serializer Ctx Json) where
  -- `StateEntry::serial_process`
  unfoldable pub serial_entry : Serial Ctx (StateEntry Json)
  serial_entry j (e, ctx) =
      let (author, ctx₁) = r.text (bytes "mAuthor") j (e.m_author, ctx) in
      let (t_ttl, ctx₂) = r.int64 (bytes "mTtl") j (e.m_ttl, ctx₁) in
      let (value, ctx₃) = r.json (bytes "mData") j (e.m_data, ctx₂) in
      (record { m_author = author; m_ttl = t_ttl; m_data = value }, ctx₃)

  -- `DataTypeConf::serial_process`
  unfoldable pub serial_conf : Serial Ctx DataTypeConf
  serial_conf j (c, ctx) =
      let (name, ctx₁) = r.text (bytes "mName") j (c.m_name, ctx) in
      let (scope, ctx₂) = r.text (bytes "mScope") j (c.m_scope, ctx₁) in
      let (interval, ctx₃) = r.int64 (bytes "mUpdateInterval") j (c.m_update_interval, ctx₂) in
      let (ttl, ctx₄) = r.int64 (bytes "mBleachTTL") j (c.m_bleach_ttl, ctx₃) in
      (
        record { m_name = name; m_scope = scope; m_update_interval = interval; m_bleach_ttl = ttl },
        ctx₄,
      )

  -- `fromStateSlice`: what `mData` holds then.
  unfoldable pub from_state_slice : StateSlice Json → Bytes
  unfolding serial_entry
  from_state_slice t = r.print (r.slice serial_entry (bytes "stateSlice") to_json (t, r.context)).1

  -- `toStateSlice` into an empty slice.
  unfoldable pub to_state_slice : Bytes → StateSlice Json
  unfolding serial_entry
  to_state_slice bs = (r.slice serial_entry (bytes "stateSlice") from_json ([], r.parse bs)).0

  -- `NetworkStats::serial_process`: the peer is left out. The numbers of ticks are signed in the
  -- document; a negative one, which the program does not write, is 0 here.
  unfoldable pub serial_stats : {Addr : Type 0} → Serial Ctx (NetworkStats Addr)
  serial_stats j (s, ctx) =
      let (tm_ts, ctx₁) = r.int64 (bytes "mTS") j (pos s.m_ts, ctx) in
      let (t_rtt, ctx₂) = r.int64 (bytes "mRttExt") j (pos s.m_rtt_ext, ctx₁) in
      let (up, ctx₃) = r.uint32 (bytes "mUpBwMbsExt") j (s.m_up_bw_mbs_ext, ctx₂) in
      let (down, ctx₄) = r.uint32 (bytes "mDownBwMbsExt") j (s.m_down_bw_mbs_ext, ctx₃) in
      (
        record {
          m_peer = s.m_peer;
          m_ts = pos_part tm_ts;
          m_rtt_ext = pos_part t_rtt;
          m_up_bw_mbs_ext = up;
          m_down_bw_mbs_ext = down;
        },
        ctx₄,
      )
