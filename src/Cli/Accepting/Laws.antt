-- ===== src/Cli/Accepting/Laws.antt =====
-- The connections that the daemon of app/shared_state_cli.cc accepts.
use shared_state_async.Prelude.{ℕ, zero, suc, Bool, ◌≡◌, ◌≢◌, refl, sym, ap, ◌∙◌}
use shared_state_async.Errors.{Result, ok, fail, throw, crash}
use shared_state_async.State.{SharedState}
use shared_state_async.Wire.Io.{Io, continue}
use shared_state_async.Wire.Io.Preserves.{Preserves}
use shared_state_async.EventLoop.Counting.{or_exit}
use shared_state_async.Sync.{handle_req_sync_connection}
use shared_state_async.Sync.Closing.{Counts, handle_req_sync_connection_closes}
use shared_state_async.Cli.Accepting.{Listener, noted, handled, accepted, accept_round, accept_loop}

-- Accepting a connection opens a socket, and `getPeerAddr` none; all hosts count the same sockets.
pub record CountsAccepted {W Json Addr Sock : Type 0} (listener : Listener W Json Addr Sock)
    : Type 0 where
  pub counts : (socket : Sock) → Counts (listener.host socket)
  pub open_sockets : W → ℕ
  pub same : (socket : Sock) (w : W) → (counts socket).open_sockets w ≡ open_sockets w
  pub by_accept :
      (socket : Sock) (w : W)
      → (listener.accept w).0 ≡ ok socket
      → open_sockets (listener.accept w).1 ≡ suc (open_sockets w)
  pub by_peer_addr :
      (socket : Sock) (n : ℕ) → Preserves (λ w. open_sockets w ≡ n) (listener.get_peer_addr socket)

-- What holds of the state after a coroutine that returns.
abbrev pub Returns : {W A : Type 0} → (W → Type 0) → Result A × W → Type 0
Returns P (ok a, w) = P w
Returns P (fail e, w) = P w
Returns P (throw, w) = Unit
Returns P (crash, w) = Unit

module _ {W : Type 0} (P : W → Type 0) where
  pub Returns-continue :
      {A B : Type 0} (r : Result A) (w : W) (k : A → Io W B)
      → Returns P (r, w)
      → ((a : A) (w' : W) → P w' → Returns P (k a w'))
      → Returns P (continue r k w)
  Returns-continue (ok a) w k h f = f a w h
  Returns-continue (fail e) w k h f = h
  Returns-continue throw w k h f = tt
  Returns-continue crash w k h f = tt

  -- After a call whose failure ends the process.
  Returns-exit :
      {A B : Type 0} (r : Result A) (w : W) (k : A → Io W B)
      → ((a : A) → r ≡ ok a → Returns P (k a w))
      → Returns P (continue (or_exit r) k w)
  Returns-exit (ok a) w k h = h a refl
  Returns-exit (fail e) w k h = tt
  Returns-exit throw w k h = tt
  Returns-exit crash w k h = tt

  Returns-noted : (r : Result Bool) (w : W) → (r ≢ throw → r ≢ crash → P w) → Returns P (noted r, w)
  Returns-noted (ok b) w h = h (λ e. cc e) (λ e. cc e)
  Returns-noted (fail e) w h = h (λ p. cc p) (λ p. cc p)
  Returns-noted throw w h = tt
  Returns-noted crash w h = tt

module _ {W Json Addr Sock : Type 0} (listener : Listener W Json Addr Sock)
    (law : CountsAccepted listener) where
  abbrev Open : ℕ → SharedState Json × W → Type 0
  Open n v = law.open_sockets v.1 ≡ n

  handled-Open :
      (socket : Sock) (peer : Addr) (n : ℕ) (v : SharedState Json × W)
      → Open (suc n) v
      → Returns (Open n) (handled listener socket peer v)
  handled-Open socket peer n v h =
      let (r, v') = handle_req_sync_connection (listener.host socket) peer v in
      Returns-noted (Open n) r v' λ nt nc.
        sym (law.same socket v'.1)
        ∙ handle_req_sync_connection_closes (listener.host socket) (law.counts socket) peer n v
            (law.same socket v.1 ∙ h) nt nc

  accept_round-Open :
      (n : ℕ) (v : SharedState Json × W) → Open n v → Returns (Open n) (accept_round listener v)
  unfolding accept_round
  accept_round-Open n v h =
      let w₁ = (listener.accept v.1).1 in
      Returns-exit (Open n) (listener.accept v.1).0 (v.0, w₁) (accepted listener)
        λ socket opened.
          Returns-exit (Open n) (listener.get_peer_addr socket w₁).0
            (v.0, (listener.get_peer_addr socket w₁).1) (handled listener socket)
            λ peer found.
              handled-Open socket peer n (v.0, (listener.get_peer_addr socket w₁).1)
                ((law.by_peer_addr socket (suc n)).preserved w₁
                  (law.by_accept socket v.1 opened ∙ ap suc h))

  -- Where accepting a connection opens one socket, `getPeerAddr` none, and the hosts of the
  -- connections count as for `handleReqSyncConnection`: after any number of rounds that return, as
  -- many sockets are open as before, whatever the peers send and however the connections fail.
  pub accept_loop_closes :
      (rounds n : ℕ) (v : SharedState Json × W)
      → Open n v
      → Returns (Open n) (accept_loop listener rounds v)
  unfolding accept_loop
  accept_loop_closes zero n v h = h
  accept_loop_closes (suc rounds) n v h =
      Returns-continue (Open n) _ _ _ (accept_round-Open n v h)
        λ a v' h'. accept_loop_closes rounds n v' h'
