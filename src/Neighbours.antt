-- ===== src/Neighbours.antt =====
-- `SharedState::getCandidatesNeighbours` of src/sharedstate.cc: a command prints one address per
-- line.
pub mod Lines
use shared_state_async.Prelude.{
  ℕ, Bool, true, false, List, [], ◌∷◌, ◌++◌, ◌==◌, Option, none, some, if◌then◌else◌,
}
use shared_state_async.Prelude.Bytes.{Bytes}
use shared_state_async.Errors.{Result, ok, fail, bad_address, errno}

-- What the rounds of the reading loop put together: the first empty chunk is the end of the output.
unfoldable pub read_all : List Bytes → Bytes
read_all [] = []
read_all ([] ∷ chunks) = []
read_all ((b ∷ bs) ∷ chunks) = (b ∷ bs) ++ read_all chunks

-- '\n'
abbrev pub newline : ℕ
newline = 10

-- A byte in front of the first line.
abbrev pub extend : ℕ → List Bytes → List Bytes
extend b [] = (b ∷ []) ∷ []
extend b (line ∷ rest) = (b ∷ line) ∷ rest

-- `std::getline` until it fails: no line follows a newline at the end.
unfoldable pub get_lines : Bytes → List Bytes
get_lines [] = []
get_lines (b ∷ bs) = let rest = get_lines bs in if b == newline then [] ∷ rest else extend b rest

-- What the loop over the lines leaves in the vector, and its result. `inet_pton` parses an address,
-- `set_port` gives it the port of the protocol.
module _ {Addr : Type 0} (inet_pton : Bytes → Option Addr) (set_port : Addr → Addr) where
  unfoldable pub parse_lines : List Bytes → Result (Unit {0}) × List Addr
  parse_lines [] = (ok tt, [])
  parse_lines (cand_line ∷ rest) =
      let (r, addresses) = parse_lines rest in
      elim (inet_pton cand_line) [
        | none ↦ (fail bad_address, [])
        | some peer_addr ↦ (r, set_port peer_addr ∷ addresses)
      ]

  -- The chunks that the command prints, and whether `waitTermination` succeeds. A read that fails is
  -- left out: `readStdOut` is called without an error variable, so that its failure is to end the
  -- process.
  unfoldable pub get_candidates_neighbours : List Bytes → Bool → Result (Unit {0}) × List Addr
  get_candidates_neighbours chunks terminated =
      if terminated then parse_lines (get_lines (read_all chunks)) else (fail errno, [])
