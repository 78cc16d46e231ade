-- ===== src/Tests/Daemon.antt =====
-- Neighbours and due types at concrete inputs.
use shared_state_async.Prelude.{ℕ, Option, none, some, List, [], ◌∷◌, ◌≡◌, refl}
use shared_state_async.Prelude.Int.{pos}
use shared_state_async.Prelude.Map.{Map, lookup}
use shared_state_async.Prelude.Bytes.{Bytes, bytes_eq, bytes_key}
use shared_state_async.Errors.{ok, crash}
use shared_state_async.State.{DataTypeConf}
use shared_state_async.Cli.Peer.{should_sync_types}
use shared_state_async.Cli.Peer.Due.{
  is_listed, is_wanted, should_sync_types_lem, should_sync_types-zero,
}
use shared_state_async.Tests.Storage.{babel, wifi, conf, confs, confs-IsMap}

-- An address is a byte and a port.
abbrev show_address : ℕ × ℕ → Bytes
show_address a = a.0 ∷ []

abbrev read_address : Bytes → Option (ℕ × ℕ)
read_address [] = none
read_address (b ∷ bs) = some (b, 0)

abbrev with_port : ℕ × ℕ → ℕ × ℕ
with_port a = (a.0, 3490)

abbrev addresses : List (ℕ × ℕ)
addresses = (65, 0) ∷ (66, 0) ∷ []

abbrev chunks : List Bytes
chunks = (65 ∷ []) ∷ (10 ∷ 66 ∷ 10 ∷ []) ∷ [] ∷ []

-- A type that was registered with an interval of 0.
abbrev never : DataTypeConf
never = record conf { m_update_interval = pos 0 }

abbrev broken : Map Bytes DataTypeConf
broken = (babel, conf) ∷ (wifi, never) ∷ []

should_sync_types_lem_example :
    (names : List Bytes) × (should_sync_types 60 confs ≡ ok names)
    × ((k : Bytes) → is_listed k names ≡ is_wanted 60 (lookup k confs))
should_sync_types_lem_example = should_sync_types_lem 60 confs confs-IsMap ((λ e. cc e), tt)

should_sync_types-zero_example : should_sync_types 60 broken ≡ crash
unfolding lookup bytes_eq
should_sync_types-zero_example = should_sync_types-zero 60 wifi never broken refl refl
