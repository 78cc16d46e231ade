-- ===== src/Wire/Socket.antt =====
-- `AsyncSocket::recv` and `AsyncSocket::send` of src/async_socket.cc: the loops that go on until
-- the whole buffer is moved, the peer closes or a system call fails.
pub mod Laws
pub mod Exact
use shared_state_async.Prelude.{
  ℕ, zero, suc, ◌+◌, ◌-◌, Bool, true, false, ◌&&◌, not, Option, none, some, [], ◌∷◌, ◌++◌, length,
  drop, ltb, ◌==◌, if◌then◌else◌,
}
use shared_state_async.Prelude.Bytes.{Bytes}
use shared_state_async.Errors.{Result, ok, fail, throw, crash}
use shared_state_async.Wire.Io.{Io}

-- The system below a socket: one awaited `RecvOperation` of at most so many bytes, one awaited
-- `SendOperation` of a buffer, and the steady clock in nanoseconds.
pub record System (W : Type 0) : Type 0 where
  pub recv_operation : ℕ → Io W Bytes
  pub send_operation : Bytes → Io W ℕ
  pub now : W → ℕ × W

module _ {W : Type 0} (sys : System W) where
  -- The loop of `recv`, with the bytes that are still wanted and those read so far. `none` means
  -- that the fuel has run out.
  unfoldable pub recv_loop : ℕ → ℕ → Bytes → W → Option (Result Bytes × W)
  recv_loop zero wanted read w = none
  recv_loop (suc fuel) wanted read w =
      let (r, w') = sys.recv_operation wanted w in
      elim r [
        | ok chunk ↦
            let rest = recv_loop fuel (wanted - length chunk) (read ++ chunk) w' in
            if not (length chunk == 0) && ltb (length chunk) wanted
            then rest
            else some (ok (read ++ chunk), w')
        | fail e ↦ some (fail e, w')
        | throw ↦ some (throw, w')
        | crash ↦ some (crash, w')
      ]

  -- The loop of `send`, with the bytes that are still to go and the number of those gone.
  unfoldable pub send_loop : ℕ → Bytes → ℕ → W → Option (Result ℕ × W)
  send_loop zero buffer sent w = none
  send_loop (suc fuel) buffer sent w =
      let (r, w') = sys.send_operation buffer w in
      elim r [
        | ok n ↦
            let rest = send_loop fuel (drop n buffer) (sent + n) w' in
            if not (n == 0) && ltb n (length buffer) then rest else some (ok (sent + n), w')
        | fail e ↦ some (fail e, w')
        | throw ↦ some (throw, w')
        | crash ↦ some (crash, w')
      ]

  abbrev pub finished {ℓ} : {A : Type ℓ} → Option A → A → A
  finished none a = a
  finished (some b) a = b

  -- Each round moves a byte at least, so a round more than there are bytes is enough fuel.
  unfoldable pub recv : ℕ → Io W Bytes
  recv len w = finished (recv_loop (suc len) len [] w) (throw, w)

  unfoldable pub send : Bytes → Io W ℕ
  send buffer w = finished (send_loop (suc (length buffer)) buffer 0 w) (throw, w)
