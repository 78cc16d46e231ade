-- ===== src/Cli/BleachLoop/Laws.antt =====
-- A round of the bleach loop of app/shared_state_cli.cc ages every registered type.
use shared_state_async.Prelude.{ℕ, ◌+◌, ◌-◌, ◌*◌, ◌≤◌, ◌<◌, Option, some, ◌≡◌, refl, arith}
use shared_state_async.Prelude.Int.{ℤ, pos}
use shared_state_async.Prelude.Map.{Map}
use shared_state_async.Prelude.Bytes.{Bytes, bytes_key}
use shared_state_async.State.{StateSlice, DataTypeConf}
use shared_state_async.State.Bleach.{bleach_slice}
use shared_state_async.Cli.BleachLoop.{bleach_times, nanoseconds_per_second}

-- At least a second, and the whole seconds of the elapsed time.
pub bleach_times_lem :
    (elapsed : ℕ)
    → (seconds : ℕ) × (bleach_times elapsed ≡ pos seconds)
      × (1 ≤ seconds)
      × (seconds * nanoseconds_per_second ≤ elapsed + (nanoseconds_per_second - elapsed))
      × (elapsed < (seconds + 1) * nanoseconds_per_second)
unfolding bleach_times
bleach_times_lem elapsed = (_, refl, ground arith, ground arith, ground arith)

module _ {Json : Type 0} where
  abbrev pub aged_slice :
      ℤ → Option DataTypeConf → Option (StateSlice Json) → Option (StateSlice Json)
  aged_slice times (some _) (some t) = some (bleach_slice times t)
  aged_slice times _ o = o
