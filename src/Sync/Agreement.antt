-- ===== src/Sync/Agreement.antt =====
-- Whether the two ends of a synchronization of src/sharedstate.cc hold the same afterwards.
use shared_state_async.Prelude.{Bool, not, Option, none, some, ◌≡◌, refl, ◌∙◌, ap, arith}
use shared_state_async.Prelude.Map.{lookup, insert, IsMap, lookup-insert_self}
use shared_state_async.Prelude.Bytes.{Bytes, bytes_key}
use shared_state_async.Errors.{Result, ok, fail, throw, crash}
use shared_state_async.State.{DataTypeConf, StateEntry, StateSlice, SharedState}
use shared_state_async.State.Merge.{merge, merge_slice}
use shared_state_async.State.Merge.Lookup.{winner, lookup-merge_slice, merge_slice-IsMap}
use shared_state_async.State.Merge.Sync.{IsAccepted, winner_round}
use shared_state_async.Wire.Endian.{store32}
use shared_state_async.Wire.Socket.Laws.{IsStream}
use shared_state_async.Wire.Message.Frame.{IsMessage}
use shared_state_async.Wire.Handshake.{wire_proto_version}
use shared_state_async.Sync.{Host, Synced, state_message, client_session, server_session}
use shared_state_async.Sync.Meeting.{Meets}
use shared_state_async.Sync.Session.{client_bytes, server_bytes, RunsAlone, sync_session-refines}

-- The entry that a storage holds for a type under a key.
abbrev pub entry_of : {Json : Type 0} → Bytes → Bytes → SharedState Json → Option (StateEntry Json)
entry_of name k s = elim (lookup name s.m_states) [ none ↦ none | some t ↦ lookup k t ]

module _ {Json : Type 0} where
  -- The storage with another state of a type.
  abbrev pub with_state : Bytes → StateSlice Json → SharedState Json → SharedState Json
  with_state name t s = record s { m_states = insert name t s.m_states }

  merge_run :
      (json_ne : Json → Json → Bool) (author : Bytes) (is_remote : Bool) (name : Bytes)
      (slice t : StateSlice Json) (conf : DataTypeConf) (s : SharedState Json)
      → lookup name s.m_states ≡ some t
      → lookup name s.m_type_conf ≡ some conf
      → merge json_ne author is_remote name slice s ≡ (
        ok (merge_slice json_ne author is_remote t slice).significant_changes,
        with_state name (merge_slice json_ne author is_remote t slice).t_state s,
      )
  unfolding merge
  merge_run json_ne author is_remote name slice t conf s h r = ground (arith, h, r)

  entry_of-with_state :
      (name k : Bytes) (t : StateSlice Json) (s : SharedState Json)
      → entry_of name k (with_state name t s) ≡ lookup k t
  entry_of-with_state name k t s = rw (entry_of, lookup-insert_self name t s.m_states) refl

meets_too :
    {W A : Type 0} (P Q : A → W → Type 0) (r : Result A × W)
    → Meets P r
    → ((a : A) (w : W) → P a w → Q a w)
    → Meets Q r
meets_too P Q (ok a, w) h f = f a w h
meets_too P Q (fail e, w) h f = h
meets_too P Q (throw, w) h f = h
meets_too P Q (crash, w) h f = h

module _ {W W' Json Addr Addr' : Type 0} (server : Host W Json Addr) (client : Host W' Json Addr')
    (st : IsStream server.system) (st' : IsStream client.system) (alone : RunsAlone server)
    (alone' : RunsAlone client) where
  -- The state of the type that the server holds when it answers.
  abbrev pub left_by : Addr → StateSlice Json → StateSlice Json → StateSlice Json
  left_by peer ts t =
      (merge_slice server.json_ne server.author_place_older (not (server.is_loopback_net peer)) ts
        t).t_state

  -- A client and a server run a synchronization of a type that both have registered and hold, each
  -- state naming a key once, over streams that carry what the other end sends, with codecs that
  -- read each other's states and messages within the limits, while no other coroutine changes
  -- either storage: under a key where neither drops a
  -- remote copy of its own entry, each end, unless it divides by zero in the estimate of the
  -- bandwidth, finishes and holds the entry that wins on the server, the same on both.
  pub sync_session_agrees :
      (peer : Addr) (peer' : Addr') (name k : Bytes) (s c : SharedState Json)
      (ts t : StateSlice Json) (conf conf' : DataTypeConf) (w : W) (w' : W')
      → lookup name s.m_states ≡ some ts
      → lookup name s.m_type_conf ≡ some conf
      → lookup name c.m_states ≡ some t
      → lookup name c.m_type_conf ≡ some conf'
      → IsMap ts
      → IsMap t
      → IsAccepted server.author_place_older
          (not (server.is_loopback_net peer))
          (lookup k ts)
          (lookup k t)
      → IsAccepted client.author_place_older
          (not (client.is_loopback_net peer'))
          (lookup k t)
          (lookup k ts)
      → server.to_state_slice (client.from_state_slice t) ≡ t
      → client.to_state_slice (server.from_state_slice (left_by peer ts t)) ≡ left_by peer ts t
      → IsMessage (state_message client name t)
      → IsMessage (state_message server name (left_by peer ts t))
      → st.inbox w
        ≡ client_bytes
            (store32 client.endian wire_proto_version)
            (state_message client name t)
            (state_message server name (left_by peer ts t))
      → st'.inbox w'
        ≡ server_bytes (state_message client name t) (state_message server name (left_by peer ts t))
      → Meets
          (λ (r : Synced Addr) u.
            entry_of name k u.0
            ≡ winner server.author_place_older
                (not (server.is_loopback_net peer))
                (lookup k ts)
                (lookup k t))
          (server_session server peer (s, w))
        × Meets
            (λ (r : Synced Addr') u.
              entry_of name k u.0
              ≡ winner server.author_place_older
                  (not (server.is_loopback_net peer))
                  (lookup k ts)
                  (lookup k t))
            (client_session client name peer' (c, w'))
  sync_session_agrees peer peer' name k s c ts t conf conf' w w' hs rs hc rc ms mc a a' codec codec'
        v v' i i' =
      let t' = left_by peer ts t in
      let far = not (server.is_loopback_net peer) in
      let far' = not (client.is_loopback_net peer') in
      let (served, asked) =
        sync_session-refines server client st st' alone alone' peer peer' name _ _ s _ c _ t t' w w'
          codec codec' v v'
          (merge_run server.json_ne server.author_place_older far name t ts conf s hs rs)
          (lookup-insert_self name t' s.m_states) hc
          (merge_run client.json_ne client.author_place_older far' name t' t conf' c hc rc) i i' in
      let mine = lookup-merge_slice server.json_ne server.author_place_older far k ts t mc in
      (
        meets_too _ _ (server_session server peer (s, w)) served
            (λ r u ex. ap (entry_of name k) ex.0 ∙ entry_of-with_state name k t' s ∙ mine),
        meets_too _ _ (client_session client name peer' (c, w')) asked (λ r u ex.
            ap (entry_of name k) ex.0
            ∙ entry_of-with_state name k _ c
            ∙ lookup-merge_slice client.json_ne client.author_place_older far' k t t'
                (merge_slice-IsMap server.json_ne server.author_place_older far ts t ms)
            ∙ ap (winner client.author_place_older far' (lookup k t)) mine
            ∙ winner_round server.author_place_older client.author_place_older far far'
                (lookup k ts) (lookup k t) a a'),
      )
