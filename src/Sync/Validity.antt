-- ===== src/Sync/Validity.antt =====
-- The storage after a synchronization of src/sharedstate.cc, whatever the other end sends.
use mathlib.Core.Path.{subst}
use shared_state_async.Prelude.{
  ℕ, Bool, none, ◌≡◌, ◌≢◌, refl, sym, arith, Option-cases, Bool-cases, ltb, ◌&&◌, inl, inr,
}
use shared_state_async.Prelude.Map.{Map, lookup, lookup-insert_self}
use shared_state_async.Prelude.Bytes.{Bytes, bytes_key}
use shared_state_async.Errors.{Result, ok, fail, throw, crash}
use shared_state_async.State.{StateSlice, SharedState}
use shared_state_async.State.Merge.{merge, merge_slice}
use shared_state_async.State.Bleach.Laws.{HasRange}
use shared_state_async.State.Types.{touch}
use shared_state_async.State.Invariant.{IsValid}
use shared_state_async.State.Invariant.Merging.{merge-IsValid}
use shared_state_async.Wire.Io.{Io, continue, ◌>>=◌}
use shared_state_async.Wire.Io.Preserves.{
  Preserves, Preserves-bind, Preserves-continue, Preserves-pure, Preserves-lift,
}
use shared_state_async.Wire.Message.{NetworkMessage, receive_network_message, send_network_message}
use shared_state_async.Wire.Handshake.{server_hand_shake, client_hand_shake}
use shared_state_async.Sync.{
  Host, Synced, new_stats, in_world, awaited, merge_message, state_at, referenced_state,
  state_message, client_session, server_session, closing, notify, finish, sync_with_peer,
  handle_req_sync_connection,
}

-- What is read as a state has TTLs that are `int64_t` values, whatever the bytes are.
abbrev pub ReadsRange : {W Json Addr : Type 0} → Host W Json Addr → Type 0
ReadsRange host = (bs : Bytes) → HasRange (host.to_state_slice bs)

abbrev pub Holds : {W Json : Type 0} → SharedState Json × W → Type 0
Holds v = IsValid v.0

-- What other coroutines do meanwhile keeps the storage well-formed.
abbrev pub KeepsValid : {W Json Addr : Type 0} → Host W Json Addr → Type 0
KeepsValid {W} {Json} host =
    (w : W) (s : SharedState Json) → IsValid s → IsValid (host.meanwhile w s)

module _ {W Json Addr : Type 0} (host : Host W Json Addr) (range : ReadsRange host)
    (valid : KeepsValid host) where
  abbrev Keeps : {A : Type 0} → Io (SharedState Json × W) A → Type 0
  Keeps m = Preserves Holds m

  in_world-Keeps : {A : Type 0} (m : Io W A) → Keeps (in_world host m)
  in_world-Keeps m = record { preserved = λ v p. p }

  awaited-Keeps : {A : Type 0} (m : Io W A) → Keeps (awaited host m)
  awaited-Keeps m = record { preserved = λ v p. valid (m v.1).1 v.0 p }

  referenced_state-Keeps : (name : Bytes) → Keeps (referenced_state host name)
  unfolding referenced_state
  referenced_state-Keeps name = record { preserved = λ v p. ground (arith, p) }

  merge_message-Keeps : (msg : NetworkMessage) (peer : Addr) → Keeps (merge_message host msg peer)
  merge_message-Keeps msg peer = record {
    preserved = λ v p.
        (merge-IsValid host.json_ne host.author_place_older _ msg.m_type_name
          (host.to_state_slice msg.m_data) v.0 p (range msg.m_data)).0;
  }

  -- A merge that succeeds is of a type that has a state, which it has afterwards.
  merge_known :
      (author : Bytes) (is_remote : Bool) (name : Bytes) (t : StateSlice Json)
      (s : SharedState Json) (n : ℕ)
      → (merge host.json_ne author is_remote name t s).0 ≡ ok n
      → lookup name (merge host.json_ne author is_remote name t s).1.m_states ≢ none
  unfolding merge
  merge_known author is_remote name t s n = elim (Option-cases (lookup name s.m_states)) [
    | inl e ↦ rw (e, merge) (λ h. absurd (cc h))
    | inr (u, e) ↦ elim (Option-cases (lookup name s.m_type_conf)) [
      | inl f ↦ rw (e, merge, f) (λ h. absurd (cc h))
      | inr (c, f) ↦
          rw (e, merge, f)
            (λ h k. cc (
              lookup-insert_self name (merge_slice host.json_ne author is_remote u t).t_state
                  s.m_states,
              k,
            ))
    ]
  ]

  touch_known :
      (name : Bytes) (m : Map Bytes (StateSlice Json)) → lookup name m ≢ none → touch name m ≡ m
  touch_known name m h = ground arith

  state_at_known :
      (name : Bytes) (v : SharedState Json × W)
      → lookup name v.0.m_states ≢ none
      → Holds v
      → Holds (state_at host name v).1
  unfolding state_at
  state_at_known name v known p =
      subst (λ m. IsValid (record v.0 { m_states = m })) (sym (touch_known name v.0.m_states known))
        p

  -- What follows a merge that succeeds starts with a state of the type.
  known_continue :
      {A : Type 0} (name : Bytes) (r : Result ℕ) (v : SharedState Json × W)
      (k : ℕ → Io (SharedState Json × W) A)
      → Holds v
      → ((n : ℕ) → r ≡ ok n → lookup name v.0.m_states ≢ none)
      → ((n : ℕ) → lookup name v.0.m_states ≢ none → Holds (k n v).1)
      → Holds (continue r k v).1
  known_continue name (ok n) v k p known h = h n (known n refl)
  known_continue name (fail e) v k p known h = p
  known_continue name throw v k p known h = p
  known_continue name crash v k p known h = p

  merge_answer-Keeps :
      {A : Type 0} (msg : NetworkMessage) (peer : Addr)
      (k : ℕ → StateSlice Json → Io (SharedState Json × W) A)
      → ((n : ℕ) (t : StateSlice Json) → Keeps (k n t))
      → Keeps (merge_message host msg peer >>= λ n. state_at host msg.m_type_name >>= k n)
  merge_answer-Keeps msg peer k h = record {
    preserved = λ v p.
        let u = (merge_message host msg peer v).1 in
        known_continue msg.m_type_name (merge_message host msg peer v).0 u
          (λ n. state_at host msg.m_type_name >>= k n)
          ((merge_message-Keeps msg peer).preserved v p)
          (merge_known host.author_place_older _ msg.m_type_name (host.to_state_slice msg.m_data)
            v.0)
          λ n known.
            (Preserves-continue Holds (state_at host msg.m_type_name u).0 (k n) (h n)).preserved
              (state_at host msg.m_type_name u).1
              (state_at_known msg.m_type_name u known
                ((merge_message-Keeps msg peer).preserved v p));
  }

  server_session-Keeps : (peer : Addr) → Keeps (server_session host peer)
  unfolding server_session
  server_session-Keeps peer =
      Preserves-bind Holds
        (awaited-Keeps (server_hand_shake host.system host.endian (new_stats peer)))
        λ shaken.
          Preserves-bind Holds
            (awaited-Keeps (receive_network_message host.system host.endian shaken))
            λ got. merge_answer-Keeps got.0 peer _ λ n t.
              Preserves-bind Holds
                (awaited-Keeps (
                  send_network_message host.system host.endian
                    (state_message host got.0.m_type_name t) got.1))
                λ sent. Preserves-pure Holds (got.0.m_type_name, sent.0, n)

  client_session-Keeps : (name : Bytes) (peer : Addr) → Keeps (client_session host name peer)
  unfolding client_session
  client_session-Keeps name peer =
      Preserves-bind Holds
        (awaited-Keeps (client_hand_shake host.system host.endian (new_stats peer)))
        λ shaken. Preserves-bind Holds (referenced_state-Keeps name) λ t.
          Preserves-bind Holds
            (awaited-Keeps
              (send_network_message host.system host.endian (state_message host name t) shaken))
            λ sent.
              Preserves-bind Holds
                (awaited-Keeps (receive_network_message host.system host.endian sent.0))
                λ got.
                  Preserves-bind Holds (merge_message-Keeps got.0 peer)
                    λ n. Preserves-pure Holds (got.0.m_type_name, got.1, n)

  closing-Keeps : {A : Type 0} (r : Result A) → Keeps (closing host r)
  unfolding closing
  closing-Keeps (ok a) =
      Preserves-bind Holds (awaited-Keeps host.close_afd) λ u. Preserves-pure Holds a
  closing-Keeps (fail e) =
      Preserves-bind Holds (awaited-Keeps host.close_afd) λ u. Preserves-lift Holds (fail e)
  closing-Keeps throw = record { preserved = λ v p. p }
  closing-Keeps crash = record { preserved = λ v p. p }

  notify-Keeps : (name : Bytes) → Keeps (notify host name)
  unfolding notify
  notify-Keeps name = record {
    preserved = λ v p. elim (Option-cases (lookup name v.0.m_states)) [
      | inl e ↦ rw (e, notify) p
      | inr (t, e) ↦ rw (e, notify) ((awaited-Keeps (host.notify_hooks name t)).preserved v p)
    ];
  }

  finish-Keeps : (r : Synced Addr) → Keeps (finish host r)
  unfolding finish
  finish-Keeps r = Preserves-bind Holds (in_world-Keeps (host.collect_stat r.1)) λ u. record {
    preserved = λ v p. elim (Bool-cases (v.0.is_peer && ltb 0 r.2)) [
      | inl t ↦ rw t ((notify-Keeps r.0).preserved v p)
      | inr t ↦ rw t p
    ];
  }

  closed-Keeps :
      {A B : Type 0} (m : Io (SharedState Json × W) A) (k : A → Io (SharedState Json × W) B)
      → Keeps m
      → ((a : A) → Keeps (k a))
      → Keeps ((λ u. closing host (m u).0 (m u).1) >>= k)
  closed-Keeps m k h hk =
      Preserves-bind Holds
        (record { preserved = λ v p. (closing-Keeps (m v).0).preserved (m v).1 (h.preserved v p) })
        hk

  -- Whatever the client sends and whichever call fails, the storage of the server stays well-formed.
  pub handle_req_sync_connection-Keeps :
      (peer : Addr) → Keeps (handle_req_sync_connection host peer)
  unfolding handle_req_sync_connection
  handle_req_sync_connection-Keeps peer =
      closed-Keeps (server_session host peer) (finish host) (server_session-Keeps peer) finish-Keeps

  pub sync_with_peer-Keeps : (name : Bytes) (peer : Addr) → Keeps (sync_with_peer host name peer)
  unfolding sync_with_peer
  sync_with_peer-Keeps name peer = record {
    preserved = λ v p. elim (Option-cases (lookup name v.0.m_states)) [
      | inl e ↦ rw (e, sync_with_peer) p
      | inr (t, e) ↦
          rw (e, sync_with_peer)
            ((Preserves-bind Holds (awaited-Keeps (host.connect peer)) λ u.
                closed-Keeps (client_session host name peer) (finish host)
                  (client_session-Keeps name peer) finish-Keeps).preserved
              v p)
    ];
  }
