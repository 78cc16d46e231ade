-- ===== src/Sync/Session.antt =====
-- Both ends of a synchronization of src/sharedstate.cc, from the handshake to the last
-- acknowledgement, over streams on which no call fails.
use mathlib.Core.List.{append_assoc, append-nil}
use shared_state_async.Prelude.{false, ℕ, not, some, [], ◌++◌, length, ◌≡◌, refl, sym, ◌∙◌, ap}
use shared_state_async.Prelude.Map.{lookup}
use shared_state_async.Prelude.Bytes.{Bytes, bytes_key}
use shared_state_async.Errors.{ok}
use shared_state_async.State.{StateSlice, SharedState}
use shared_state_async.State.Merge.{merge}
use shared_state_async.Wire.Endian.{be32, store32, length-store32}
use shared_state_async.Wire.Socket.Laws.{IsStream}
use shared_state_async.Wire.Message.{NetworkMessage, receive_network_message, send_network_message}
use shared_state_async.Wire.Message.Frame.{frame, frame_length, IsMessage}
use shared_state_async.Wire.Handshake.{wire_proto_version, server_hand_shake, client_hand_shake}
use shared_state_async.Sync.{
  Host, Synced, awaited, referenced_state, merge_message, state_at, state_message, new_stats,
  client_session, server_session,
}
use shared_state_async.Sync.Meeting.{
  Meets, Meets-continue, Meets-known, beside, received, sent, server_shaken, client_shaken, merged,
  held, met, sent_as, as_held,
}

joined : (o a b c : Bytes) {o' : Bytes} → o' ≡ (o ++ a) ++ b → o' ++ c ≡ o ++ (a ++ (b ++ c))
joined o a b c h = rw h (simp append_assoc)

gathered :
    (o a b c d : Bytes) {o' : Bytes}
    → o' ≡ ((o ++ a) ++ b) ++ c
    → o' ++ d ≡ o ++ (a ++ (b ++ (c ++ d)))
gathered o a b c d h = rw h (simp append_assoc)

-- What the server sends in a session, and what the client does.
abbrev pub server_bytes : NetworkMessage → NetworkMessage → Bytes
server_bytes request reply = be32 wire_proto_version ++ (be32 (frame_length request) ++ frame reply)

abbrev pub client_bytes : Bytes → NetworkMessage → NetworkMessage → Bytes
client_bytes echo request reply =
    be32 wire_proto_version ++ (echo ++ (frame request ++ be32 (frame_length reply)))

-- No other coroutine changes the storage meanwhile, or erases a type of it.
abbrev pub RunsAlone : {W Json Addr : Type 0} → Host W Json Addr → Type 0
RunsAlone {W} {Json} host =
    ((w : W) (s : SharedState Json) → host.meanwhile w s ≡ s)
    × ((name : Bytes) (w : W) → host.has_replaced name w ≡ false)

module _ {W Json Addr : Type 0} (host : Host W Json Addr) (st : IsStream host.system)
    (alone : RunsAlone host) where
  open st use {inbox, outbox}

  abbrev pub Exchanged :
      SharedState Json → Bytes → ℕ → Bytes → W → Synced Addr → SharedState Json × W → Type 0
  Exchanged s' name n gained w r u =
      (u.0 ≡ s') × (r.0 ≡ name) × (r.2 ≡ n) × (inbox u.1 ≡ []) × (outbox u.1 ≡ outbox w ++ gained)

  pub server_session-Meets :
      (peer : Addr) (request : NetworkMessage) (echo : Bytes) (n : ℕ) (s s' : SharedState Json)
      (t' : StateSlice Json) (w : W)
      → IsMessage request
      → IsMessage (state_message host request.m_type_name t')
      → length echo ≡ 4
      → merge host.json_ne host.author_place_older
          (not (host.is_loopback_net peer))
          request.m_type_name
          (host.to_state_slice request.m_data)
          s
        ≡ (ok n, s')
      → lookup request.m_type_name s'.m_states ≡ some t'
      → inbox w ≡ client_bytes echo request (state_message host request.m_type_name t')
      → Meets
          (Exchanged s' request.m_type_name n
            (server_bytes request (state_message host request.m_type_name t'))
            w)
          (server_session host peer (s, w))
  unfolding server_session
  server_session-Meets peer request echo n s s' t' w v v' four hm ht hi =
      let name = request.m_type_name in
      let reply = state_message host name t' in
      Meets-continue _ _
        (awaited host (server_hand_shake host.system host.endian (new_stats peer)) (s, w)) _
        (beside host.meanwhile _ s (server_hand_shake host.system host.endian (new_stats peer) w)
          (λ x. alone.0 x s)
          (server_shaken host st (new_stats peer) echo (frame request ++ be32 (frame_length reply))
            w four hi))
        λ shaken u₁ (p₁, (i₁, o₁)).
          Meets-continue _ _
            (awaited host (receive_network_message host.system host.endian shaken) u₁) _
            (beside host.meanwhile _ u₁.0
              (receive_network_message host.system host.endian shaken u₁.1) (λ x. alone.0 x u₁.0)
              (received host st request shaken (be32 (frame_length reply)) u₁.1 v i₁))
            λ got u₂ (p₂, (same, i₂, o₂)).
              Meets-continue
                (λ changes (u : SharedState Json × W). (changes ≡ n) × (u ≡ (s', u₂.1))) _
                (merge_message host got.0 peer u₂) _
                (met _ (merge_message host got.0 peer u₂) n (s', u₂.1)
                  (merged host st got.0 request peer n s s' u₂ same (p₂ ∙ p₁) hm) (refl, refl))
                λ changes u₃ (count, p₃).
                  Meets-continue (λ t (u : SharedState Json × W). (t ≡ t') × (u ≡ (s', u₂.1))) _
                    (state_at host got.0.m_type_name u₃) _
                    (met _ (state_at host got.0.m_type_name u₃) t' (s', u₂.1)
                      (held host st got.0.m_type_name name t' s' u₂.1 u₃
                        (ap (λ (x : NetworkMessage). x.m_type_name) same) p₃ ht)
                      (refl, refl))
                    λ t u₄ (p₄, q₄).
                      let at_end = ap (λ (u : SharedState Json × W). u.1) q₄ in
                      let answer = as_held host st got.0 request t t' same p₄ in
                      Meets-continue _ _
                        (awaited host
                          (send_network_message host.system host.endian
                            (state_message host got.0.m_type_name t) got.1)
                          u₄)
                        _
                        (beside host.meanwhile _ u₄.0
                          (send_network_message host.system host.endian
                            (state_message host got.0.m_type_name t) got.1 u₄.1)
                          (λ x. alone.0 x u₄.0)
                          (sent_as host st (state_message host got.0.m_type_name t) reply got.1 u₄.1
                            answer v' (ap inbox at_end ∙ i₂)))
                        λ stats u₅ (p₅, (i₅, o₅)). (
                          p₅ ∙ ap (λ (u : SharedState Json × W). u.0) q₄,
                          ap (λ (x : NetworkMessage). x.m_type_name) same,
                          count,
                          i₅,
                          o₅
                              ∙ joined (outbox w) (be32 wire_proto_version)
                                  (be32 (frame_length request)) (frame reply)
                                  (ap outbox at_end
                                    ∙ o₂
                                    ∙ ap (λ o. o ++ be32 (frame_length request)) o₁),
                        )

  referenced :
      (name : Bytes) (t : StateSlice Json) (s : SharedState Json) (u : SharedState Json × W)
      → lookup name s.m_states ≡ some t
      → u.0 ≡ s
      → referenced_state host name u ≡ (ok t, u)
  unfolding referenced_state
  referenced name t s u h e =
      let here : lookup name u.0.m_states ≡ some t = rw e h in
      rw (referenced_state, alone.1 name u.1, here) refl

  pub client_session-Meets :
      (peer : Addr) (name : Bytes) (reply : NetworkMessage) (n : ℕ) (s s' : SharedState Json)
      (t : StateSlice Json) (w : W)
      → lookup name s.m_states ≡ some t
      → IsMessage (state_message host name t)
      → IsMessage reply
      → merge host.json_ne host.author_place_older
          (not (host.is_loopback_net peer))
          reply.m_type_name
          (host.to_state_slice reply.m_data)
          s
        ≡ (ok n, s')
      → inbox w ≡ server_bytes (state_message host name t) reply
      → Meets
          (Exchanged s' reply.m_type_name n
            (client_bytes
              (store32 host.endian wire_proto_version)
              (state_message host name t)
              reply)
            w)
          (client_session host name peer (s, w))
  unfolding client_session
  client_session-Meets peer name reply n s s' t w known v v' hm hi =
      let request = state_message host name t in
      Meets-continue _ _
        (awaited host (client_hand_shake host.system host.endian (new_stats peer)) (s, w)) _
        (beside host.meanwhile _ s (client_hand_shake host.system host.endian (new_stats peer) w)
          (λ x. alone.0 x s)
          (client_shaken host st (new_stats peer) (be32 (frame_length request) ++ frame reply) w
            hi))
        λ shaken u₁ (p₁, (i₁, o₁)).
          Meets-known _ (referenced_state host name u₁) _ t u₁ (referenced name t s u₁ known p₁) (
            Meets-continue _ _
              (awaited host (send_network_message host.system host.endian request shaken) u₁) _
              (beside host.meanwhile _ u₁.0
                (send_network_message host.system host.endian request shaken u₁.1)
                (λ x. alone.0 x u₁.0) (sent host st request shaken (frame reply) u₁.1 v i₁))
              λ put u₂ (p₂, (i₂, o₂)).
                Meets-continue _ _
                  (awaited host (receive_network_message host.system host.endian put.0) u₂) _
                  (beside host.meanwhile _ u₂.0
                    (receive_network_message host.system host.endian put.0 u₂.1)
                    (λ x. alone.0 x u₂.0)
                    (received host st reply put.0 [] u₂.1 v' (i₂ ∙ sym (append-nil (frame reply)))))
                  λ got u₃ (p₃, (same, i₃, o₃)).
                    Meets-continue
                      (λ changes (u : SharedState Json × W). (changes ≡ n) × (u ≡ (s', u₃.1))) _
                      (merge_message host got.0 peer u₃) _
                      (met _ (merge_message host got.0 peer u₃) n (s', u₃.1)
                        (merged host st got.0 reply peer n s s' u₃ same (p₃ ∙ p₂ ∙ p₁) hm)
                        (refl, refl))
                      λ changes u₄ (count, p₄).
                        let at_end = ap (λ (u : SharedState Json × W). u.1) p₄ in
                        (
                          ap (λ (u : SharedState Json × W). u.0) p₄,
                          ap (λ (x : NetworkMessage). x.m_type_name) same,
                          count,
                          ap inbox at_end ∙ i₃,
                          ap outbox at_end
                              ∙ o₃
                              ∙ gathered (outbox w) (be32 wire_proto_version)
                                  (store32 host.endian wire_proto_version) (frame request)
                                  (be32 (frame_length reply))
                                  (o₂ ∙ ap (λ o. o ++ frame request) o₁),
                        ))

module _ {W W' Json Addr Addr' : Type 0} (server : Host W Json Addr) (client : Host W' Json Addr')
    (st : IsStream server.system) (st' : IsStream client.system) (alone : RunsAlone server)
    (alone' : RunsAlone client) where
  -- A round of synchronization over streams on which no call fails, while no other coroutine changes
  -- either storage, implements the two merges. The client sends the state `t` that it has of a type, the server merges it and answers with the
  -- state `t'` that it then holds, and the client merges that; where both messages are within the
  -- limits, each codec reads what the other writes, and both merges succeed. Unless an estimation of
  -- the bandwidth divides by zero, each end then holds the storage that its merge gives, with its
  -- number of significant changes, and has read the stream to the end; what each puts on the wire
  -- is what the other has been given to read.
  pub sync_session-refines :
      (peer : Addr) (peer' : Addr') (name : Bytes) (n m : ℕ) (s s' c c' : SharedState Json)
      (t t' : StateSlice Json) (w : W) (w' : W')
      → server.to_state_slice (client.from_state_slice t) ≡ t
      → client.to_state_slice (server.from_state_slice t') ≡ t'
      → IsMessage (state_message client name t)
      → IsMessage (state_message server name t')
      → merge server.json_ne server.author_place_older (not (server.is_loopback_net peer)) name t s
        ≡ (ok n, s')
      → lookup name s'.m_states ≡ some t'
      → lookup name c.m_states ≡ some t
      → merge client.json_ne client.author_place_older
          (not (client.is_loopback_net peer'))
          name
          t'
          c
        ≡ (ok m, c')
      → st.inbox w
        ≡ client_bytes
            (store32 client.endian wire_proto_version)
            (state_message client name t)
            (state_message server name t')
      → st'.inbox w' ≡ server_bytes (state_message client name t) (state_message server name t')
      → Meets
          (Exchanged server st alone s' name n
            (server_bytes (state_message client name t) (state_message server name t'))
            w)
          (server_session server peer (s, w))
        × Meets
            (Exchanged client st' alone' c' name m
              (client_bytes
                (store32 client.endian wire_proto_version)
                (state_message client name t)
                (state_message server name t'))
              w')
            (client_session client name peer' (c, w'))
  sync_session-refines peer peer' name n m s s' c c' t t' w w' codec codec' v v' hs ht known hc i
        i' =
      (
        server_session-Meets server st alone peer (state_message client name t)
            (store32 client.endian wire_proto_version) n s s' t' w v v'
            (length-store32 client.endian wire_proto_version) (rw codec hs) ht i,
        client_session-Meets client st' alone' peer' name (state_message server name t') m c c' t w'
            known v v' (rw codec' hc) i',
      )
