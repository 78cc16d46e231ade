-- ===== src/Sync/Meeting.antt =====
-- The parts of a synchronization of src/sharedstate.cc over streams on which no call fails, and how
-- they are put together.
use mathlib.Core.List.{append-nil}
use shared_state_async.Prelude.{
  ℕ, zero, suc, ◌-◌, ◌/◌, ◌^◌, ◌<◌, true, not, some, [], ◌++◌, length, ltb, ◌==◌, ◌≡◌, inl, inr,
  refl, sym, ◌∙◌, ap, arith, Bool-cases,
}
use shared_state_async.Prelude.Map.{Map, lookup}
use shared_state_async.Prelude.Bytes.{Bytes, bytes_key}
use shared_state_async.Errors.{Result, ok, fail, throw, crash}
use shared_state_async.State.{StateSlice, SharedState}
use shared_state_async.State.Merge.{merge}
use shared_state_async.State.Types.{touch}
use shared_state_async.Wire.Io.{Io, continue}
use shared_state_async.Wire.Endian.{be32, store32}
use shared_state_async.Wire.Socket.Laws.{IsStream}
use shared_state_async.Wire.Message.{
  to_uint32, NetworkMessage, NetworkStats, bandwidth, mbit_per_sec, receive_network_message,
  send_network_message,
}
use shared_state_async.Wire.Message.Frame.{frame, frame_length, IsMessage, Fits}
use shared_state_async.Wire.Message.Frame.Receiving.{receive_frame}
use shared_state_async.Wire.Message.Frame.Sending.{send_frame}
use shared_state_async.Wire.Handshake.{wire_proto_version, server_hand_shake, client_hand_shake}
use shared_state_async.Wire.Handshake.Laws.{server_hand_shake_lem, client_hand_shake_lem}
use shared_state_async.Sync.{Host, merge_message, state_at, state_message}

-- A coroutine that succeeds as said, unless the estimation of the bandwidth divides by zero.
abbrev pub Meets : {W A : Type 0} → (A → W → Type 0) → Result A × W → Type 0
Meets P (ok a, w) = P a w
Meets P (fail e, w) = ⊥
Meets P (throw, w) = ⊥
Meets P (crash, w) = Unit

pub Meets-continue :
    {W A B : Type 0} (P : A → W → Type 0) (Q : B → W → Type 0) (r : Result A × W) (k : A → Io W B)
    → Meets P r
    → ((a : A) (w : W) → P a w → Meets Q (k a w))
    → Meets Q (continue r.0 k r.1)
Meets-continue P Q (ok a, w) k h step = step a w h
Meets-continue P Q (fail e, w) k h step = absurd h
Meets-continue P Q (throw, w) k h step = absurd h
Meets-continue P Q (crash, w) k h step = tt

-- What happens in the world leaves the storage, where nothing else changes it meanwhile.
pub beside :
    {S W A : Type 0} (f : W → S → S) (P : A → W → Type 0) (s : S) (r : Result A × W)
    → ((w : W) → f w s ≡ s)
    → Meets P r
    → Meets (λ a (u : S × W). (u.0 ≡ s) × P a u.1) (r.0, (f r.1 s, r.1))
beside f P s (ok a, w) alone h = (alone w, h)
beside f P s (fail e, w) alone h = absurd h
beside f P s (throw, w) alone h = absurd h
beside f P s (crash, w) alone h = tt

-- A step whose result is known.
pub Meets-known :
    {W A B : Type 0} (Q : B → W → Type 0) (r : Result A × W) (k : A → Io W B) (a : A) (w : W)
    → r ≡ (ok a, w)
    → Meets Q (k a w)
    → Meets Q (continue r.0 k r.1)
Meets-known Q r k a w e h = rw e h

speed :
    {W : Type 0} (n m : ℕ) (w : W) → Meets (λ q (u : W). u ≡ w) (to_uint32 (mbit_per_sec n m), w)
unfolding mbit_per_sec
speed n zero w = tt
speed n (suc m) w = refl

estimated :
    {W : Type 0} (n b e old : ℕ) (w : W) → Meets (λ q (u : W). u ≡ w) (bandwidth n b e old, w)
unfolding bandwidth
estimated n b e old w = elim (Bool-cases (ltb b e)) [
  | inl t ↦ rw t (speed n ((e - b) / 1000) w)
  | inr t ↦ rw t refl
]

pub met :
    {S A : Type 0} (P : A → S → Type 0) (r : Result A × S) (a : A) (s : S)
    → r ≡ (ok a, s)
    → P a s
    → Meets P r
met P r a s e p = rw e p

module _ {W Json Addr : Type 0} (host : Host W Json Addr) (st : IsStream host.system) where
  open st use {inbox, outbox}

  -- A frame that is read whole.
  pub received :
      (m : NetworkMessage) (stats : NetworkStats Addr) (rest : Bytes) (w : W)
      → IsMessage m
      → inbox w ≡ frame m ++ rest
      → Meets
          (λ (x : NetworkMessage × NetworkStats Addr × ℕ) u.
            (x.0 ≡ m) × (inbox u ≡ rest) × (outbox u ≡ outbox w ++ be32 (frame_length m)))
          (receive_network_message host.system host.endian stats w)
  unfolding receive_network_message
  received m stats rest w v h =
      let (w', r, e, same, total, i, o) = receive_frame host.system st host.endian m rest w v h in
      rw e (
        Meets-continue (λ q u. u ≡ w') _
          (bandwidth r.total_received_bytes r.recv_btp r.recv_etp stats.m_down_bw_mbs_ext, w') _
          (estimated r.total_received_bytes r.recv_btp r.recv_etp stats.m_down_bw_mbs_ext w')
          (λ q u p. (same, ap inbox p ∙ i, ap outbox p ∙ o)))

  -- A frame that is acknowledged with its length.
  pub sent :
      (m : NetworkMessage) (stats : NetworkStats Addr) (rest : Bytes) (w : W)
      → IsMessage m
      → inbox w ≡ be32 (frame_length m) ++ rest
      → Meets
          (λ (x : NetworkStats Addr × ℕ) u. (inbox u ≡ rest) × (outbox u ≡ outbox w ++ frame m))
          (send_network_message host.system host.endian m stats w)
  unfolding send_network_message
  sent m stats rest w v h =
      let small : Fits m = record {
        name_fits = v.name_fits;
        data_fits = ground (arith, v.data_fits);
      } in
      let short : frame_length m < 2 ^ 32 = ground (arith, v.name_fits, v.data_fits) in
      let (w', b, e, run, o, i) =
        send_frame host.system st host.endian m (frame_length m) rest w small short h in
      let same : (frame_length m == frame_length m) ≡ true = ground arith in
      rw (run, same)
        (Meets-continue (λ q u. u ≡ w') _ (bandwidth (frame_length m) b e stats.m_up_bw_mbs_ext, w')
          _ (estimated (frame_length m) b e stats.m_up_bw_mbs_ext w')
          (λ q u p. (ap inbox p ∙ i, ap outbox p ∙ o)))

  -- A handshake with a peer of the same version.
  pub server_shaken :
      (stats : NetworkStats Addr) (echo rest : Bytes) (w : W)
      → length echo ≡ 4
      → inbox w ≡ be32 wire_proto_version ++ (echo ++ rest)
      → Meets
          (λ (x : NetworkStats Addr) u.
            (inbox u ≡ rest) × (outbox u ≡ outbox w ++ be32 wire_proto_version))
          (server_hand_shake host.system host.endian stats w)
  server_shaken stats echo rest w four h =
      let (w', b, e, run, o, i) =
        server_hand_shake_lem host.system st host.endian stats wire_proto_version echo rest w
          (omega arith) four h in
      rw run (i, o)

  pub client_shaken :
      (stats : NetworkStats Addr) (rest : Bytes) (w : W)
      → inbox w ≡ be32 wire_proto_version ++ rest
      → Meets
          (λ (x : NetworkStats Addr) u.
            (inbox u ≡ rest)
            × (outbox u
                ≡ (outbox w ++ be32 wire_proto_version) ++ store32 host.endian wire_proto_version))
          (client_hand_shake host.system host.endian stats w)
  client_shaken stats rest w h =
      let (w', b, e, run, o, i) =
        client_hand_shake_lem host.system st host.endian stats wire_proto_version rest w
          (omega arith) h in
      rw run (i, o)

  -- The storage after a merge of a message, and the state that it then holds.
  pub merged :
      (msg m : NetworkMessage) (peer : Addr) (n : ℕ) (s s' : SharedState Json)
      (v : SharedState Json × W)
      → msg ≡ m
      → v.0 ≡ s
      → merge host.json_ne host.author_place_older
          (not (host.is_loopback_net peer))
          m.m_type_name
          (host.to_state_slice m.m_data)
          s
        ≡ (ok n, s')
      → merge_message host msg peer v ≡ (ok n, (s', v.1))
  merged msg m peer n s s' v e q h = rw (e, q, h) refl

  touched :
      (name : Bytes) (t : StateSlice Json) (m : Map Bytes (StateSlice Json))
      → lookup name m ≡ some t
      → touch name m ≡ m
  touched name t m h = rw (h, touch) refl

  pub held :
      (got name : Bytes) (t : StateSlice Json) (s : SharedState Json) (w : W)
      (v : SharedState Json × W)
      → got ≡ name
      → v ≡ (s, w)
      → lookup name s.m_states ≡ some t
      → state_at host got v ≡ (ok t, (s, w))
  unfolding state_at
  held got name t s w v e q h = rw (e, q, h, touched name t s.m_states h) refl

  pub sent_as :
      (message m : NetworkMessage) (stats : NetworkStats Addr) (w : W)
      → message ≡ m
      → IsMessage m
      → inbox w ≡ be32 (frame_length m)
      → Meets
          (λ (x : NetworkStats Addr × ℕ) u. (inbox u ≡ []) × (outbox u ≡ outbox w ++ frame m))
          (send_network_message host.system host.endian message stats w)
  sent_as message m stats w e v h =
      rw e (sent m stats [] w v (h ∙ sym (append-nil (be32 (frame_length m)))))

  pub as_held :
      (got m : NetworkMessage) (t t' : StateSlice Json)
      → got ≡ m
      → t ≡ t'
      → state_message host got.m_type_name t ≡ state_message host m.m_type_name t'
  as_held got m t t' e q = rw (e, q) refl
