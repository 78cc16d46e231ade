-- ===== src/Sync.antt =====
-- `SharedState::syncWithPeer` and `SharedState::handleReqSyncConnection` of src/sharedstate.cc: the
-- two ends of a synchronization. A call takes and gives the storage and the state of the world.
-- While it waits for a call of the system, other coroutines may change the storage. A failure of
-- `receiveNetworkMessage` in the server is a failure of the call, whose error is kept from the
-- caller.
pub mod Closing
pub mod Hooks
pub mod Meeting
pub mod Session
pub mod Agreement
pub mod Validity
pub mod LocalInstance
use shared_state_async.Prelude.{
  ℕ, Bool, true, false, ◌&&◌, not, Option, none, some, List, [], ◌∷◌, ltb, if◌then◌else◌,
}
use shared_state_async.Prelude.Map.{Map, lookup}
use shared_state_async.Prelude.Bytes.{Bytes, bytes_key}
use shared_state_async.Errors.{Result, ok, fail, throw, crash, unkown_data_type}
use shared_state_async.State.{StateEntry, StateSlice, SharedState}
use shared_state_async.State.Merge.{merge}
use shared_state_async.State.Types.{touch}
use shared_state_async.Wire.Io.{Io, pure, lift, ◌>>=◌, ◌>>◌}
use shared_state_async.Wire.Endian.{Endian}
use shared_state_async.Wire.Socket.{System}
use shared_state_async.Wire.Message.{
  NetworkMessage, NetworkStats, receive_network_message, send_network_message,
}
use shared_state_async.Wire.Handshake.{server_hand_shake, client_hand_shake}

-- What a synchronization uses beside the socket: connecting to an address and closing the socket,
-- `collectStat` and `notifyHooks`, the JSON codec, `!=` on JSON values, the name of this host and
-- the test for a loopback address. `meanwhile` is what other coroutines do to the storage while a
-- call waits; which they are, and how far they come, depends on the world. `has_replaced` tells
-- whether they have erased a type since a reference to its state was taken, and created it again.
pub record Host (W Json Addr : Type 0) : Type 0 where
  pub system : System W
  pub endian : Endian
  pub connect : Addr → Io W (Unit {0})
  pub close_afd : Io W (Unit {0})
  pub collect_stat : NetworkStats Addr → Io W (Unit {0})
  pub notify_hooks : Bytes → StateSlice Json → Io W Bool
  pub from_state_slice : StateSlice Json → Bytes
  pub to_state_slice : Bytes → StateSlice Json
  pub json_ne : Json → Json → Bool
  pub author_place_older : Bytes
  pub is_loopback_net : Addr → Bool
  pub meanwhile : W → SharedState Json → SharedState Json
  pub has_replaced : Bytes → W → Bool

-- `NetworkStats` of a peer before anything is measured.
abbrev pub new_stats : {Addr : Type 0} → Addr → NetworkStats Addr
new_stats peer = record {
  m_peer = peer;
  m_ts = 0;
  m_rtt_ext = 0;
  m_up_bw_mbs_ext = 0;
  m_down_bw_mbs_ext = 0;
}

-- The type of the last message, the statistics, and the number of significant changes.
abbrev pub Synced : Type 0 → Type 0
Synced Addr = Bytes × NetworkStats Addr × ℕ

module _ {W Json Addr : Type 0} (host : Host W Json Addr) where
  -- A call that does not suspend the coroutine, and one that is awaited.
  abbrev pub in_world : {A : Type 0} → Io W A → Io (SharedState Json × W) A
  in_world m v = ((m v.1).0, (v.0, (m v.1).1))

  abbrev pub awaited : {A : Type 0} → Io W A → Io (SharedState Json × W) A
  awaited m v = ((m v.1).0, (host.meanwhile (m v.1).1 v.0, (m v.1).1))

  -- `merge` of a message from a peer.
  abbrev pub merge_message : NetworkMessage → Addr → Io (SharedState Json × W) ℕ
  merge_message msg peer v =
      let (r, s) =
        merge host.json_ne host.author_place_older (not (host.is_loopback_net peer)) msg.m_type_name
          (host.to_state_slice msg.m_data) v.0 in
      (r, (s, v.1))

  -- The state of a type, which `operator[]` creates where there is none.
  unfoldable pub state_at : Bytes → Io (SharedState Json × W) (StateSlice Json)
  state_at name v = (
    ok (elim (lookup name v.0.m_states) [ none ↦ [] | some t ↦ t ]),
    (record v.0 { m_states = touch name v.0.m_states }, v.1),
  )

  -- The state of a type through a reference that was taken before. It dangles where the type has
  -- been erased since, also where it has been created again.
  unfoldable pub referenced_state : Bytes → Io (SharedState Json × W) (StateSlice Json)
  referenced_state name v =
      if host.has_replaced name v.1
      then (crash, v)
      else elim (lookup name v.0.m_states) [ none ↦ (crash, v) | some t_state ↦ (ok t_state, v) ]

  abbrev pub state_message : Bytes → StateSlice Json → NetworkMessage
  state_message name t = record { m_type_name = name; m_data = host.from_state_slice t }

  -- From the handshake to the merge.
  unfoldable pub client_session : Bytes → Addr → Io (SharedState Json × W) (Synced Addr)
  unfolding referenced_state
  client_session data_type_name peer = do
    shaken ← awaited (client_hand_shake host.system host.endian (new_stats peer))
    t_state ← referenced_state data_type_name
    sent ←
        awaited (
          send_network_message host.system host.endian (state_message data_type_name t_state)
            shaken)
    got ← awaited (receive_network_message host.system host.endian sent.0)
    changes ← merge_message got.0 peer
    pure (got.0.m_type_name, got.1, changes)

  -- From the handshake to the answer.
  unfoldable pub server_session : Addr → Io (SharedState Json × W) (Synced Addr)
  server_session peer = do
    shaken ← awaited (server_hand_shake host.system host.endian (new_stats peer))
    got ← awaited (receive_network_message host.system host.endian shaken)
    changes ← merge_message got.0 peer
    t_state ← state_at got.0.m_type_name
    sent ← awaited (
        send_network_message host.system host.endian (state_message got.0.m_type_name t_state)
          got.1)
    pure (got.0.m_type_name, sent.0, changes)

  -- The socket is closed after a success and before the return of a failure; an exception leaves
  -- it open.
  unfoldable pub closing : {A : Type 0} → Result A → Io (SharedState Json × W) A
  closing (ok a) v = (awaited host.close_afd >> pure a) v
  closing (fail e) v = (awaited host.close_afd >> lift (fail e)) v
  closing throw v = (throw, v)
  closing crash v = (crash, v)

  -- `notifyHooks` of a type whose state is looked up first.
  unfoldable pub notify : Bytes → Io (SharedState Json × W) Bool
  notify name v = elim (lookup name v.0.m_states) [
    | none ↦ (fail unkown_data_type, v)
    | some t ↦ awaited (host.notify_hooks name t) v
  ]

  -- After the socket is closed.
  unfoldable pub finish : Synced Addr → Io (SharedState Json × W) Bool
  finish r = do
    in_world (host.collect_stat r.1)
    λ v. if v.0.is_peer && ltb 0 r.2 then notify r.0 v else (ok true, v)

  unfoldable pub sync_with_peer : Bytes → Addr → Io (SharedState Json × W) Bool
  sync_with_peer data_type_name peer v = elim (lookup data_type_name v.0.m_states) [
    | none ↦ (fail unkown_data_type, v)
    | some t_state ↦
        (do
          awaited (host.connect peer)
          r ← (λ u.
              closing (client_session data_type_name peer u).0
                (client_session data_type_name peer u).1)
          finish r)
          v
  ]

  unfoldable pub handle_req_sync_connection : Addr → Io (SharedState Json × W) Bool
  handle_req_sync_connection peer = do
    r ← (λ u. closing (server_session peer u).0 (server_session peer u).1)
    finish r
