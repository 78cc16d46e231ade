-- ===== src/Tests/Lifetime.antt =====
-- The other operations on the storage at concrete inputs.
use shared_state_async.Prelude.{ℕ, true, List, some, [], ◌∷◌, ◌≡◌, ◌≢◌, refl, arith, if◌then◌else◌}
use shared_state_async.Prelude.Int.{pos, ◌+ℤ◌}
use shared_state_async.Prelude.Map.{lookup, insert}
use shared_state_async.Prelude.Bytes.{Bytes, bytes, bytes_eq, bytes_key}
use shared_state_async.Errors.{ok}
use shared_state_async.Tests.Storage.{
  json_ne, lime, babel, wifi, held, conf, confs, storage, surroundings, held-IsMap, states-IsMap,
  held-HasRange, storage-Reach, storage-IsValid,
}
use shared_state_async.State.Bleach.{bleach, bleach_slice}
use shared_state_async.State.Bleach.Laws.{aged, count_expired, bleach_lem}
use shared_state_async.State.Types.{not_open, parsed, load_registered_types, register_data_type}
use shared_state_async.State.Types.Loading.{kept_or_empty, load_registered_types_lem}
use shared_state_async.State.Types.Registering.{new_conf, base_conf, register_data_type_lem}
use shared_state_async.State.Invariant.{IsValid}
use shared_state_async.Cli.Commands.{register_command}
use shared_state_async.Cli.Registering.{registration, register_command_lem}
use shared_state_async.Cli.Insert.{insert_members, insert_loop}
use shared_state_async.Cli.Insert.Laws.{last_member, insert_members_lem}
use shared_state_async.History.{Reach-IsValid}

abbrev members : List (Bytes × ℕ)
members = (bytes "b", 12) ∷ (bytes "d", 13) ∷ []

Reach-IsValid_example : IsValid storage
Reach-IsValid_example = Reach-IsValid json_ne lime storage-Reach

bleach_lem_example :
    let (r, s') = bleach babel (pos 7) storage in
    (r ≡ ok (count_expired (pos 7) held))
    × (lookup babel s'.m_states ≡ some (bleach_slice (pos 7) held))
    × ((k : Bytes) → lookup k (bleach_slice (pos 7) held) ≡ aged (pos 7) (lookup k held))
    × ((other : Bytes) → babel ≢ other → lookup other s'.m_states ≡ lookup other storage.m_states)
    × (s'.m_type_conf ≡ storage.m_type_conf)
unfolding lookup bytes_eq
bleach_lem_example =
    bleach_lem babel (pos 7) held storage (omega arith) refl held-IsMap held-HasRange

load_registered_types_lem_example :
    let (r, s') = load_registered_types (parsed confs true) storage in
    (r ≡ ok true)
    × (s'.m_type_conf ≡ confs)
    × ((k : Bytes)
        → lookup k s'.m_states ≡ kept_or_empty (lookup k confs) (lookup k storage.m_states))
load_registered_types_lem_example = load_registered_types_lem confs true storage states-IsMap

register_data_type_lem_example :
    let conf =
      insert wifi (new_conf wifi babel (pos 5) (pos 60)) (base_conf surroundings.config storage) in
    ((register_data_type wifi babel (pos 5) (pos 60) surroundings storage).result ≡ ok true)
    × ((register_data_type wifi babel (pos 5) (pos 60) surroundings storage).written ≡ some conf)
    × ((k : Bytes)
        → lookup k conf ≡ (
            if bytes_eq wifi k
            then some (new_conf wifi babel (pos 5) (pos 60))
            else lookup k (base_conf surroundings.config storage)))
    × (lookup wifi (load_registered_types (parsed conf true) storage).1.m_states
        ≡ kept_or_empty
            (some (new_conf wifi babel (pos 5) (pos 60)))
            (lookup wifi storage.m_states))
register_data_type_lem_example =
    register_data_type_lem wifi babel (pos 5) (pos 60) surroundings storage storage (λ e. cc e)
      (omega arith) refl refl refl states-IsMap

insert_members_lem_example :
    let (r, s') = insert_members lime babel members storage in
    (r ≡ ok tt)
    × (lookup babel s'.m_states ≡ some (insert_loop lime (pos 151) members held))
    × ((k : Bytes)
        → lookup k (insert_loop lime (pos 151) members held)
          ≡ last_member lime (pos 151) k members (lookup k held))
    × ((other : Bytes) → babel ≢ other → lookup other s'.m_states ≡ lookup other storage.m_states)
    × (s'.m_type_conf ≡ storage.m_type_conf)
    × IsValid s'
unfolding lookup bytes_eq ◌+ℤ◌
insert_members_lem_example =
    insert_members_lem lime babel members held conf storage storage-IsValid refl refl
      (omega arith, omega arith) (omega arith, omega arith)

register_command_lem_example :
    register_command wifi babel (pos 5) (pos 60) (record surroundings { config = not_open }) storage
    ≡ registration wifi (new_conf wifi babel (pos 5) (pos 60)) not_open
register_command_lem_example =
    register_command_lem wifi babel (pos 5) (pos 60) (record surroundings { config = not_open })
      storage (λ e. cc e) (omega arith) refl refl refl
