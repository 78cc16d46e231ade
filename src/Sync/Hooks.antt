-- ===== src/Sync/Hooks.antt =====
-- `SharedState::notifyHooks` of src/sharedstate.cc, after it has found the state of the type.
use shared_state_async.Prelude.{
  Bool, true, false, ◌||◌, not, Option, none, some, List, [], ◌∷◌, if◌then◌else◌,
}
use shared_state_async.Prelude.Bytes.{Bytes}
use shared_state_async.Errors.{ok}
use shared_state_async.State.{StateSlice}
use shared_state_async.Wire.Io.{Io}

-- A file in the directory of the hooks: whether its status cannot be read, and whether its owner
-- may execute it.
pub record DirEntry : Type 0 where
  pub path : Bytes
  pub fs_err : Bool
  pub owner_exec : Bool

-- A child process: `execute` gives one or none, the other calls take it and report errors that are
-- noted only.
pub record Commands (W Cmd : Type 0) : Type 0 where
  pub execute : Bytes → W → Option Cmd × W
  pub write_std_in : Cmd → Bytes → W → W
  pub close_std_in : Cmd → W → W
  pub wait_termination : Cmd → W → W

-- The keys and the data of the entries, without authors and TTLs.
unfoldable pub clean_json_data : {Json : Type 0} → StateSlice Json → List (Bytes × Json)
clean_json_data [] = []
clean_json_data ((key, state_entry) ∷ t_state) = (key, state_entry.m_data) ∷ clean_json_data t_state

module _ {W Cmd Json : Type 0} (cmds : Commands W Cmd) (to_text : List (Bytes × Json) → Bytes) where
  -- The command on the text, if it could be started.
  unfoldable pub feed : Option Cmd → Bytes → W → W
  feed none text w = w
  feed (some cmd) text w =
      cmds.wait_termination cmd (cmds.close_std_in cmd (cmds.write_std_in cmd text w))

  -- The loop over the directory.
  unfoldable pub run_hooks : Bytes → List DirEntry → W → W
  run_hooks text [] w = w
  run_hooks text (dir_entry ∷ rest) w =
      let w' =
        if dir_entry.fs_err || not dir_entry.owner_exec
        then w
        else feed (cmds.execute dir_entry.path w).0 text (cmds.execute dir_entry.path w).1 in
      run_hooks text rest w'

  -- `none` stands for a path that is no directory: the call gives false, without an error.
  unfoldable pub notify_hooks : Option (List DirEntry) → StateSlice Json → Io W Bool
  notify_hooks none t_state w = (ok false, w)
  notify_hooks (some entries) t_state w =
      (ok true, run_hooks (to_text (clean_json_data t_state)) entries w)
