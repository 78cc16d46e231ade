-- ===== src/Cli/BleachLoop.antt =====
-- One round of `SharedStateCli::bleachDataLoop` of app/shared_state_cli.cc. The calls in it bubble
-- no error up, so a failure ends the process; it is the round's result here.
pub mod Laws
use shared_state_async.Prelude.{ℕ, ◌/◌, Bool, List, [], ◌∷◌, ltb, if◌then◌else◌}
use shared_state_async.Prelude.Int.{ℤ, pos}
use shared_state_async.Prelude.Map.{Map}
use shared_state_async.Prelude.Bytes.{Bytes}
use shared_state_async.Errors.{Result, ok, fail, throw, crash}
use shared_state_async.State.{DataTypeConf, SharedState}
use shared_state_async.State.Bleach.{bleach}
use shared_state_async.State.Types.{ConfigFile, load_registered_types}

abbrev pub nanoseconds_per_second : ℕ
nanoseconds_per_second = 1_000_000_000

-- `bleachTimes`, from the nanoseconds since the last bleach, cast to whole seconds.
unfoldable pub bleach_times : ℕ → ℤ
bleach_times elapsed = pos (
    (if ltb nanoseconds_per_second elapsed then elapsed else nanoseconds_per_second)
    / nanoseconds_per_second)

module _ {Json : Type 0} where
  -- The loop over the types of the configuration.
  unfoldable pub bleach_types :
      List (Bytes × DataTypeConf) → ℤ → SharedState Json → Result (Unit {0}) × SharedState Json
  bleach_types [] times s = (ok tt, s)
  bleach_types ((type_name, _) ∷ rest) times s =
      let (r, s') = bleach type_name times s in
      elim r [
        | ok _ ↦ bleach_types rest times s'
        | fail e ↦ (fail e, s')
        | throw ↦ (throw, s')
        | crash ↦ (crash, s')
      ]

  unfoldable pub bleach_round :
      ConfigFile → ℕ → SharedState Json → Result (Unit {0}) × SharedState Json
  bleach_round config elapsed s =
      let (r, s') = load_registered_types config s in
      elim r [
        | ok _ ↦ bleach_types s'.m_type_conf (bleach_times elapsed) s'
        | fail e ↦ (fail e, s')
        | throw ↦ (throw, s')
        | crash ↦ (crash, s')
      ]
