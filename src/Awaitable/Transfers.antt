-- ===== src/Awaitable/Transfers.antt =====
-- The loops that move bytes through a descriptor of the event loop: `asyncRead` of
-- src/read_operation.cc and `asyncWrite` of src/write_operation.cc, which are the loops of
-- `AsyncSocket::recv` and `send` over other operations, and `readStdOut` and `writeStdIn` of
-- src/async_command.cc.
pub mod Laws
use shared_state_async.Prelude.{ℕ, Bool, false, Option, none, some}
use shared_state_async.Prelude.Bytes.{Bytes}
use shared_state_async.Errors.{Result, ok, fail, crash, errno}
use shared_state_async.Wire.Io.{Io}
use shared_state_async.Wire.Socket.{System, recv, send}
use shared_state_async.EventLoop.{IoContext}
use shared_state_async.Awaitable.{Answer, value, again, error}
use shared_state_async.Awaitable.Operations.{awaited_read, awaited_write}
use shared_state_async.Command.{AsyncCommand}

-- The system calls on one descriptor that does not block, `recv` and `send` or `read` and `write`,
-- and the clock.
pub record Calls (W : Type 0) : Type 0 where
  pub read : ℕ → W → Answer Bytes × W
  pub write : Bytes → W → Answer ℕ × W
  pub now : W → ℕ × W

-- `if(numReadBytes == -1) co_return -1;`, the error having been reported.
abbrev pub given : {A : Type 0} → Answer A → Result A
given (value x) = ok x
given again = fail errno
given error = fail errno

-- A call that keeps nothing in its operation.
abbrev pub plain : {W A : Type 0} → (W → Answer A × W) → Unit {0} → W → Answer A × Unit {0} × W
plain f d w = let (r, w') = f w in (r, d, w')

module _ {W Op : Type 0} (calls : Calls W) (meanwhile : IoContext W Op → IoContext W Op) (a : ℕ)
    (op : Op) where
  -- One awaited `ReadOp` or `RecvOperation`.
  unfoldable pub read_op : ℕ → Io (IoContext W Op) Bytes
  unfolding awaited_read
  read_op len s =
      let t = awaited_read (plain (calls.read len)) false meanwhile a op tt s in
      (given t.0.m_return_value, t.1)

  -- One awaited `WriteOp` or `SendOperation`.
  unfoldable pub write_op : Bytes → Io (IoContext W Op) ℕ
  unfolding awaited_write
  write_op buffer s =
      let t = awaited_write (plain (calls.write buffer)) meanwhile a op tt s in
      (given t.0.m_return_value, t.1)

  -- The system below a socket or a pipe of the event loop.
  abbrev pub descriptor : System (IoContext W Op)
  descriptor = record {
    recv_operation = read_op;
    send_operation = write_op;
    now = λ s. let (t, w) = calls.now s.kernel in (t, record s { kernel = w });
  }

  unfoldable pub async_read : ℕ → Io (IoContext W Op) Bytes
  unfolding read_op
  async_read len = recv descriptor len

  unfoldable pub async_write : Bytes → Io (IoContext W Op) ℕ
  unfolding write_op
  async_write buffer = send descriptor buffer

-- The calls on the descriptor of each object. A pointer that is null is not tested.
module _ {W Op : Type 0} (calls : ℕ → Calls W) (meanwhile : IoContext W Op → IoContext W Op)
    (op : Op) where
  unfoldable pub read_std_out : AsyncCommand → ℕ → Io (IoContext W Op) Bytes
  unfolding async_read
  read_std_out command len s = elim command.m_std_out [
    | none ↦ (crash, s)
    | some a ↦ async_read (calls a) meanwhile a op len s
  ]

  unfoldable pub write_std_in : AsyncCommand → Bytes → Io (IoContext W Op) ℕ
  unfolding async_write
  write_std_in command buffer s = elim command.m_std_in [
    | none ↦ (crash, s)
    | some a ↦ async_write (calls a) meanwhile a op buffer s
  ]
