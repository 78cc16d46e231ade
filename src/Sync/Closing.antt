-- ===== src/Sync/Closing.antt =====
-- The calls of src/sharedstate.cc that synchronize close the socket they use, on every path that
-- returns.
use shared_state_async.Prelude.{
  Bool, ℕ, suc, ◌-◌, ◌&&◌, ltb, ◌≡◌, ◌≢◌, refl, arith, inl, inr, Option-cases, Bool-cases,
}
use shared_state_async.Prelude.Map.{lookup}
use shared_state_async.Prelude.Bytes.{Bytes, bytes_key}
use shared_state_async.Errors.{Result, ok, fail, throw, crash}
use shared_state_async.State.{StateSlice, SharedState}
use shared_state_async.Wire.Io.{Io, continue, ◌>>=◌, ◌>>◌}
use shared_state_async.Wire.Io.Preserves.{
  Preserves, Preserves-continue, Preserves-bind, Preserves-pure, Preserves-lift,
}
use shared_state_async.Wire.Message.{NetworkMessage, NetworkStats}
use shared_state_async.Wire.Preserving.{
  IsKept, receive_network_message-Preserves, send_network_message-Preserves,
  server_hand_shake-Preserves, client_hand_shake-Preserves,
}
use shared_state_async.Sync.{
  Host, Synced, in_world, awaited, merge_message, state_at, referenced_state, client_session,
  server_session, closing, notify, finish, sync_with_peer, handle_req_sync_connection,
}

-- How many sockets are open: a successful connection opens one, `closeAFD` closes one, whatever it
-- reports, and nothing else changes the number.
pub record Counts {W Json Addr : Type 0} (host : Host W Json Addr) : Type 0 where
  pub open_sockets : W → ℕ
  pub by_system : (n : ℕ) → IsKept host.system (λ w. open_sockets w ≡ n)
  pub by_connect :
      (peer : Addr) (w : W)
      → ((host.connect peer w).0 ≡ ok tt
          → open_sockets (host.connect peer w).1 ≡ suc (open_sockets w))
        × ((host.connect peer w).0 ≢ ok tt → open_sockets (host.connect peer w).1 ≡ open_sockets w)
  pub by_close : (w : W) → open_sockets (host.close_afd w).1 ≡ open_sockets w - 1
  pub by_collect :
      (n : ℕ) (stats : NetworkStats Addr)
      → Preserves (λ w. open_sockets w ≡ n) (host.collect_stat stats)
  pub by_hooks :
      (n : ℕ) (name : Bytes) (t : StateSlice Json)
      → Preserves (λ w. open_sockets w ≡ n) (host.notify_hooks name t)

module _ {W Json Addr : Type 0} (host : Host W Json Addr) (count : Counts host) where
  abbrev Opened : ℕ → SharedState Json × W → Type 0
  Opened n v = count.open_sockets v.1 ≡ n

  in_world-Preserves :
      (n : ℕ) {A : Type 0} {m : Io W A}
      → Preserves (λ w. count.open_sockets w ≡ n) m
      → Preserves (Opened n) (in_world host m)
  in_world-Preserves n h = record { preserved = λ v p. h.preserved v.1 p }

  awaited-Preserves :
      (n : ℕ) {A : Type 0} {m : Io W A}
      → Preserves (λ w. count.open_sockets w ≡ n) m
      → Preserves (Opened n) (awaited host m)
  awaited-Preserves n h = record { preserved = λ v p. h.preserved v.1 p }

  referenced_state-Preserves :
      (n : ℕ) (name : Bytes) → Preserves (Opened n) (referenced_state host name)
  unfolding referenced_state
  referenced_state-Preserves n name = record { preserved = λ v p. ground (arith, p) }

  merge_message-Preserves :
      (n : ℕ) (msg : NetworkMessage) (peer : Addr)
      → Preserves (Opened n) (merge_message host msg peer)
  merge_message-Preserves n msg peer = record { preserved = λ v p. p }

  client_session-Preserves :
      (n : ℕ) (name : Bytes) (peer : Addr) → Preserves (Opened n) (client_session host name peer)
  unfolding client_session
  client_session-Preserves n name peer =
      Preserves-bind (Opened n)
        (awaited-Preserves n
          (client_hand_shake-Preserves host.system _ (count.by_system n) host.endian _))
        λ shaken. Preserves-bind (Opened n) (referenced_state-Preserves n name) λ t.
          Preserves-bind (Opened n)
            (awaited-Preserves n
              (send_network_message-Preserves host.system _ (count.by_system n) host.endian _ _))
            λ sent.
              Preserves-bind (Opened n)
                (awaited-Preserves n (
                  receive_network_message-Preserves host.system _ (count.by_system n) host.endian
                    _))
                λ got.
                  Preserves-bind (Opened n) (merge_message-Preserves n _ _)
                    λ changes. Preserves-pure (Opened n) _

  state_at-Preserves : (n : ℕ) (name : Bytes) → Preserves (Opened n) (state_at host name)
  unfolding state_at
  state_at-Preserves n name = record { preserved = λ v p. p }

  server_session-Preserves : (n : ℕ) (peer : Addr) → Preserves (Opened n) (server_session host peer)
  unfolding server_session
  server_session-Preserves n peer =
      Preserves-bind (Opened n)
        (awaited-Preserves n
          (server_hand_shake-Preserves host.system _ (count.by_system n) host.endian _))
        λ shaken.
          Preserves-bind (Opened n)
            (awaited-Preserves n
              (receive_network_message-Preserves host.system _ (count.by_system n) host.endian _))
            λ got. Preserves-bind (Opened n) (merge_message-Preserves n _ _) λ changes.
              Preserves-bind (Opened n) (state_at-Preserves n _) λ t.
                Preserves-bind (Opened n)
                  (awaited-Preserves n (
                    send_network_message-Preserves host.system _ (count.by_system n) host.endian _
                      _))
                  λ sent. Preserves-pure (Opened n) _

  notify-Preserves : (n : ℕ) (name : Bytes) → Preserves (Opened n) (notify host name)
  unfolding notify
  notify-Preserves n name = record {
    preserved = λ v p. elim (Option-cases (lookup name v.0.m_states)) [
      | inl e ↦ rw (e, notify) p
      | inr (t, e) ↦ rw (e, notify) ((count.by_hooks n name t).preserved v.1 p)
    ];
  }

  finish-Preserves : (n : ℕ) (r : Synced Addr) → Preserves (Opened n) (finish host r)
  unfolding finish
  finish-Preserves n r =
      Preserves-bind (Opened n) (in_world-Preserves n (count.by_collect n r.1)) λ u. record {
        preserved = λ v p. elim (Bool-cases (v.0.is_peer && ltb 0 r.2)) [
          | inl t ↦ rw t ((notify-Preserves n r.0).preserved v p)
          | inr t ↦ rw t p
        ];
      }

  after_close :
      (n : ℕ) (v : SharedState Json × W)
      → Opened (suc n) v
      → Opened n (awaited host host.close_afd v).1
  after_close n v p = omega (arith, count.by_close v.1, p)

  -- What runs between the opening and the closing.
  closing_lem :
      (n : ℕ) {A : Type 0} (r : Result A) (v : SharedState Json × W)
      → r ≢ throw
      → r ≢ crash
      → Opened (suc n) v
      → Opened n (closing host r v).1
  unfolding closing
  closing_lem n (ok a) v h k p =
      (Preserves-continue (Opened n) _ _ λ u. Preserves-pure (Opened n) a).preserved _
        (after_close n v p)
  closing_lem n (fail e) v h k p =
      (Preserves-continue (Opened n) _ _ λ u. Preserves-lift (Opened n) (fail e)).preserved _
        (after_close n v p)
  closing_lem n throw v h k p = absurd (h refl)
  closing_lem n crash v h k p = absurd (k refl)

  -- A session between the opening of its socket and what follows its closing.
  session-Opened :
      (n : ℕ) {A B : Type 0} (m : Io (SharedState Json × W) A) (k : A → Io (SharedState Json × W) B)
      (v : SharedState Json × W)
      → ((i : ℕ) → Preserves (Opened i) m)
      → ((i : ℕ) (a : A) → Preserves (Opened i) (k a))
      → (((λ u. closing host (m u).0 (m u).1) >>= k) v).0 ≢ throw
      → (((λ u. closing host (m u).0 (m u).1) >>= k) v).0 ≢ crash
      → Opened (suc n) v
      → Opened n (((λ u. closing host (m u).0 (m u).1) >>= k) v).1
  unfolding closing
  session-Opened n m k v hm hk nt nc p = (Preserves-continue (Opened n) _ k (hk n)).preserved _ (
      closing_lem n (m v).0 (m v).1 (λ e. nt (rw e refl)) (λ e. nc (rw e refl))
        ((hm (suc n)).preserved v p))

  -- Under the same laws of the number of open sockets: whatever the client and the system answer,
  -- when the handling of a connection returns, with a success or a failure, one socket less is
  -- open than before.
  pub handle_req_sync_connection_closes :
      (peer : Addr) (n : ℕ) (v : SharedState Json × W)
      → count.open_sockets v.1 ≡ suc n
      → (handle_req_sync_connection host peer v).0 ≢ throw
      → (handle_req_sync_connection host peer v).0 ≢ crash
      → count.open_sockets (handle_req_sync_connection host peer v).1.1 ≡ n
  unfolding handle_req_sync_connection
  handle_req_sync_connection_closes peer n v p nt nc =
      session-Opened n (server_session host peer) (finish host) v
        (λ i. server_session-Preserves i peer) finish-Preserves nt nc p

  -- The session of the client and what follows, and both with the connection before them.
  abbrev session : Bytes → Addr → Io (SharedState Json × W) Bool
  session name peer =
      (λ u. closing host (client_session host name peer u).0 (client_session host name peer u).1)
      >>= finish host

  abbrev whole : Bytes → Addr → Io (SharedState Json × W) Bool
  whole name peer = awaited host (host.connect peer) >> session name peer

  connected :
      (name : Bytes) (peer : Addr) (v : SharedState Json × W)
      → (whole name peer v).0 ≢ throw
      → (whole name peer v).0 ≢ crash
      → Opened (count.open_sockets v.1) (whole name peer v).1
  connected name peer v =
      go (host.connect peer v.1).0 (λ e. (count.by_connect peer v.1).0 e)
        (λ e. (count.by_connect peer v.1).1 e)
    where
      go :
          (r : Result (Unit {0}))
          → (r ≡ ok tt
              → count.open_sockets (host.connect peer v.1).1 ≡ suc (count.open_sockets v.1))
          → (r ≢ ok tt → count.open_sockets (host.connect peer v.1).1 ≡ count.open_sockets v.1)
          → (continue r (λ u. session name peer) (awaited host (host.connect peer) v).1).0 ≢ throw
          → (continue r (λ u. session name peer) (awaited host (host.connect peer) v).1).0 ≢ crash
          → Opened
              (count.open_sockets v.1)
              (continue r (λ u. session name peer) (awaited host (host.connect peer) v).1).1
      go (ok u) opened same nt nc =
          session-Opened (count.open_sockets v.1) (client_session host name peer) (finish host) _
            (λ i. client_session-Preserves i name peer) finish-Preserves nt nc (opened refl)
      go (fail e) opened same nt nc = same (λ p. cc p)
      go throw opened same nt nc = same (λ p. cc p)
      go crash opened same nt nc = same (λ p. cc p)

  -- Where a successful connection opens a socket, `closeAFD` closes one and nothing else changes
  -- their number: whatever the peer and the system answer, a synchronization that returns, with a
  -- success or a failure, leaves as many sockets open as there were.
  pub sync_with_peer_closes :
      (name : Bytes) (peer : Addr) (v : SharedState Json × W)
      → (sync_with_peer host name peer v).0 ≢ throw
      → (sync_with_peer host name peer v).0 ≢ crash
      → count.open_sockets (sync_with_peer host name peer v).1.1 ≡ count.open_sockets v.1
  unfolding sync_with_peer
  sync_with_peer_closes name peer v = elim (Option-cases (lookup name v.0.m_states)) [
    | inl e ↦ rw (e, sync_with_peer) (λ nt nc. refl)
    | inr (t, e) ↦ rw (e, sync_with_peer) (connected name peer v)
  ]
