-- ===== src/Command/Child.antt =====
-- What `AsyncCommand::execute` of src/async_command.cc does in the child process: it maps its ends
-- of the pipes to its standard input and output, splits the command at white space and executes it.
pub mod Laws
use mathlib.Core.List.{append-nil, append_assoc}
use shared_state_async.Prelude.{
  ℕ, ◌<◌, Bool, true, false, ◌||◌, ◌&&◌, Option, none, some, List, [], ◌∷◌, ◌++◌, All, map, leb,
  ◌==◌, if◌then◌else◌, ◌≡◌, ◌≢◌, refl, sym, ap, ◌∙◌, arith, Bool-cases, inl, inr,
}
use shared_state_async.Prelude.Bytes.{Bytes}

-- The system calls of the child. `execvp` takes the file, null where there are no arguments, and
-- returns only if it fails.
pub record ChildCalls (W : Type 0) : Type 0 where
  pub close : ℕ → W → W
  pub dup2 : ℕ → ℕ → W → W
  pub execvp : Option Bytes → List Bytes → W → Bool × W

-- What `operator>>` of a stream skips.
unfoldable pub is_space : ℕ → Bool
is_space c = c == 32 || (leb 9 c && leb c 13)

abbrev pub flush : Bytes → List Bytes → List Bytes
flush [] rest = rest
flush (c ∷ cur) rest = (c ∷ cur) ∷ rest

-- The strings that `std::istream_iterator` reads, with what is read so far of the next one.
unfoldable pub words_from : Bytes → Bytes → List Bytes
unfolding is_space
words_from cur [] = flush cur []
words_from cur (c ∷ s) = elim (is_space c) [
  | true ↦ flush cur (words_from [] s)
  | false ↦ words_from (cur ++ c ∷ []) s
]

unfoldable pub arguments : Bytes → List Bytes
unfolding words_from
arguments cmd = words_from [] cmd

abbrev pub first : List Bytes → Option Bytes
first [] = none
first (x ∷ xs) = some x

-- The read end and the write end of the pipe from the parent, and those of the pipe to it.
module _ {W : Type 0} (os : ChildCalls W) (p q : ℕ × ℕ) where
  unfoldable pub map_pipes : W → W
  map_pipes w =
      let closed = os.close q.0 (os.close p.1 w) in
      let read = os.close p.0 (os.dup2 p.0 0 closed) in os.close q.1 (os.dup2 q.1 1 read)

  -- True where the command has taken over, false where the child ends with an error.
  unfoldable pub in_child : Bytes → W → Bool × W
  unfolding map_pipes arguments
  in_child cmd w = os.execvp (first (arguments cmd)) (arguments cmd) (map_pipes w)
