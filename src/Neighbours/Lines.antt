-- ===== src/Neighbours/Lines.antt =====
-- The lines of the candidates' output, in src/sharedstate.cc.
use shared_state_async.Prelude.{List, [], ◌∷◌, ◌++◌, Option, some, ◌≡◌, ◌≢◌, All}
use shared_state_async.Prelude.Bytes.{Bytes}
use shared_state_async.Neighbours.{newline}

-- Lines as a command prints them.
abbrev pub print_lines : List Bytes → Bytes
print_lines [] = []
print_lines (line ∷ rest) = line ++ (newline ∷ print_lines rest)

module _ {Addr : Type 0} (inet_pton : Bytes → Option Addr) (set_port : Addr → Addr)
    (show : Addr → Bytes) where
  -- A text that is an address for `inet_pton`, with no line break in it.
  abbrev pub IsShown : Addr → Type 0
  IsShown a = (inet_pton (show a) ≡ some a) × All (λ b. b ≢ newline) (show a)
