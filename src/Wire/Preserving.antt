-- ===== src/Wire/Preserving.antt =====
-- The transfers, messages and handshakes of src/async_socket.cc and src/sharedstate.cc touch the
-- world through the system calls of one socket only: what these preserve, they preserve.
use shared_state_async.Prelude.{
  ℕ, zero, suc, ◌+◌, ◌-◌, ◌&&◌, not, Option, none, some, [], ◌++◌, length, drop, ltb, ◌==◌, inl,
  inr, Bool-cases,
}
use shared_state_async.Prelude.Bytes.{Bytes}
use shared_state_async.Errors.{Result, throw, Result-cases}
use shared_state_async.Wire.Io.Preserves.{
  Preserves, Preserves-bind, Preserves-fail_if, Preserves-pure, Preserves-lift,
}
use shared_state_async.Wire.Endian.{Endian}
use shared_state_async.Wire.Socket.{System, finished, recv_loop, send_loop, recv, send}
use shared_state_async.Wire.Message.{
  NetworkMessage, NetworkStats, clock, receive_bytes, receive_network_message, send_bytes,
  send_network_message,
}
use shared_state_async.Wire.Handshake.{server_hand_shake, client_hand_shake}

-- The system calls keep a predicate.
pub record IsKept {W : Type 0} (sys : System W) (P : W → Type 0) : Type 0 where
  pub by_recv : (n : ℕ) → Preserves P (sys.recv_operation n)
  pub by_send : (buffer : Bytes) → Preserves P (sys.send_operation buffer)
  pub by_now : (w : W) → P w → P (sys.now w).1

module _ {W : Type 0} (sys : System W) (P : W → Type 0) (kept : IsKept sys P) where
  -- What is left of the world where a loop has ended.
  abbrev After : {A : Type 0} → Option (Result A × W) → Type 0
  After none = Unit
  After (some (r, w)) = P w

  After-recv_loop :
      (fuel wanted : ℕ) (read : Bytes) (w : W) → P w → After (recv_loop sys fuel wanted read w)
  unfolding recv_loop
  After-recv_loop zero wanted read w p = tt
  After-recv_loop (suc fuel) wanted read w p =
      let w' = (sys.recv_operation wanted w).1 in
      let p' = (kept.by_recv wanted).preserved w p in
      elim (Result-cases (sys.recv_operation wanted w).0) [
        | inl (chunk, e) ↦
            elim (Bool-cases (not (length chunk == 0) && ltb (length chunk) wanted)) [
              | inl more ↦
                  rw (e, recv_loop, more)
                    (After-recv_loop fuel (wanted - length chunk) (read ++ chunk) w' p')
              | inr done ↦ rw (e, recv_loop, done) p'
            ]
        | inr (inl (x, e)) ↦ rw (e, recv_loop) p'
        | inr (inr (inl e)) ↦ rw (e, recv_loop) p'
        | inr (inr (inr e)) ↦ rw (e, recv_loop) p'
      ]

  After-send_loop :
      (fuel : ℕ) (buffer : Bytes) (sent : ℕ) (w : W)
      → P w
      → After (send_loop sys fuel buffer sent w)
  unfolding send_loop
  After-send_loop zero buffer sent w p = tt
  After-send_loop (suc fuel) buffer sent w p =
      let w' = (sys.send_operation buffer w).1 in
      let p' = (kept.by_send buffer).preserved w p in
      elim (Result-cases (sys.send_operation buffer w).0) [
        | inl (n, e) ↦ elim (Bool-cases (not (n == 0) && ltb n (length buffer))) [
          | inl more ↦
              rw (e, send_loop, more) (After-send_loop fuel (drop n buffer) (sent + n) w' p')
          | inr done ↦ rw (e, send_loop, done) p'
        ]
        | inr (inl (x, e)) ↦ rw (e, send_loop) p'
        | inr (inr (inl e)) ↦ rw (e, send_loop) p'
        | inr (inr (inr e)) ↦ rw (e, send_loop) p'
      ]

  After-finished :
      {A : Type 0} (o : Option (Result A × W)) (r : Result A) (w : W)
      → After o
      → P w
      → P (finished sys o (r, w)).1
  After-finished none r w a p = p
  After-finished (some b) r w a p = a

  pub recv-Preserves : (len : ℕ) → Preserves P (recv sys len)
  unfolding recv
  recv-Preserves len = record {
    preserved = λ w p.
        After-finished (recv_loop sys (suc len) len [] w) throw w
          (After-recv_loop (suc len) len [] w p) p;
  }

  pub send-Preserves : (buffer : Bytes) → Preserves P (send sys buffer)
  unfolding send
  send-Preserves buffer = record {
    preserved = λ w p.
        After-finished (send_loop sys (suc (length buffer)) buffer 0 w) throw w
          (After-send_loop (suc (length buffer)) buffer 0 w p) p;
  }

  module _ (endian : Endian) where
    clock-Preserves : Preserves P (clock sys endian)
    unfolding clock
    clock-Preserves = record { preserved = kept.by_now }

    receive_bytes-Preserves : Preserves P (receive_bytes sys endian)
    unfolding receive_bytes
    receive_bytes-Preserves = Preserves-bind P clock-Preserves λ b.
        Preserves-bind P (recv-Preserves _) λ l. Preserves-bind P (Preserves-fail_if P _ _) λ u.
          Preserves-bind P (recv-Preserves _) λ n. Preserves-bind P (recv-Preserves _) λ d.
            Preserves-bind P (Preserves-fail_if P _ _) λ u. Preserves-bind P (recv-Preserves _) λ p.
              Preserves-bind P clock-Preserves
                λ e. Preserves-bind P (send-Preserves _) λ s. Preserves-pure P _

    send_bytes-Preserves : (m : NetworkMessage) → Preserves P (send_bytes sys endian m)
    unfolding send_bytes
    send_bytes-Preserves m = Preserves-bind P clock-Preserves λ t.
        Preserves-bind P (send-Preserves _) λ a. Preserves-bind P (send-Preserves _) λ b.
          Preserves-bind P (send-Preserves _) λ c. Preserves-bind P (send-Preserves _) λ d.
            Preserves-bind P (recv-Preserves _) λ ack.
              Preserves-bind P clock-Preserves
                λ e. Preserves-bind P (Preserves-fail_if P _ _) λ u. Preserves-pure P _

    module _ {Addr : Type 0} (stats : NetworkStats Addr) where
      pub receive_network_message-Preserves : Preserves P (receive_network_message sys endian stats)
      unfolding receive_network_message
      receive_network_message-Preserves =
          Preserves-bind P receive_bytes-Preserves
            λ r. Preserves-bind P (Preserves-lift P _) λ bw. Preserves-pure P _

      pub send_network_message-Preserves :
          (m : NetworkMessage) → Preserves P (send_network_message sys endian m stats)
      unfolding send_network_message
      send_network_message-Preserves m =
          Preserves-bind P (send_bytes-Preserves m)
            λ r. Preserves-bind P (Preserves-lift P _) λ bw. Preserves-pure P _

      pub server_hand_shake-Preserves : Preserves P (server_hand_shake sys endian stats)
      unfolding server_hand_shake
      server_hand_shake-Preserves = Preserves-bind P (recv-Preserves _) λ v.
          Preserves-bind P (Preserves-fail_if P _ _) λ u. Preserves-bind P clock-Preserves λ b.
            Preserves-bind P (send-Preserves _) λ s.
              Preserves-bind P (recv-Preserves _)
                λ x. Preserves-bind P clock-Preserves λ e. Preserves-pure P _

      pub client_hand_shake-Preserves : Preserves P (client_hand_shake sys endian stats)
      unfolding client_hand_shake
      client_hand_shake-Preserves = Preserves-bind P clock-Preserves λ b.
          Preserves-bind P (send-Preserves _) λ s. Preserves-bind P (recv-Preserves _) λ v.
            Preserves-bind P clock-Preserves λ e.
              Preserves-bind P (Preserves-fail_if P _ _)
                λ u. Preserves-bind P (send-Preserves _) λ x. Preserves-pure P _
