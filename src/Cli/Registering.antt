-- ===== src/Cli/Registering.antt =====
-- What the command `register` of app/shared_state_cli.cc comes to.
use shared_state_async.Prelude.{ℕ, true, false, ◌≤◌, Option, none, some, [], ◌≡◌, ◌≢◌, refl, length}
use shared_state_async.Prelude.Int.{ℤ}
use shared_state_async.Prelude.Map.{Map, insert}
use shared_state_async.Prelude.Bytes.{Bytes, bytes_key}
use shared_state_async.Errors.{Result, ok, fail, errno}
use shared_state_async.State.{DataTypeConf, SharedState}
use shared_state_async.State.Types.{
  data_type_name_max_lenght, ConfigFile, not_open, parse_error, parsed, load_registered_types,
  Surroundings,
}
use shared_state_async.State.Types.Registering.{new_conf, registered}
use shared_state_async.Cli.Commands.{register_command}

-- The status of the process and the file that it writes, by the file that it finds.
abbrev pub registration :
    Bytes → DataTypeConf → ConfigFile → Result ℕ × Option (Map Bytes DataTypeConf)
registration name c (parsed conf m_ok) = (ok 0, some (insert name c conf))
registration name c not_open = (fail errno, none)
registration name c parse_error = (fail errno, none)

module _ {Json : Type 0} where
  by_file :
      (name scope : Bytes) (interval ttl : ℤ) (w : Surroundings) (f : ConfigFile)
      (s : SharedState Json)
      → w.config ≡ f
      → name ≢ []
      → length name ≤ data_type_name_max_lenght
      → w.is_open ≡ true
      → w.conf_dir_err ≡ false
      → w.m_ok ≡ true
      → register_command name scope interval ttl w s
        ≡ registration name (new_conf name scope interval ttl) f
  unfolding register_command load_registered_types
  by_file name scope interval ttl w not_open s e h fits o d m = rw (register_command, e) refl
  by_file name scope interval ttl w parse_error s e h fits o d m = rw (register_command, e) refl
  by_file name scope interval ttl w (parsed conf b) s e h fits o d m =
      let s' = (load_registered_types w.config s).1 in
      let done = registered name scope interval ttl w (parsed conf b) s' e h fits o d m in
      rw (register_command, e, done.0, done.1) refl

  -- Where `registerDataType` by itself would register the type, the command `register` does so only
  -- if the configuration file is there and can be parsed: it ends with status 0, and the file then
  -- holds the new configuration beside what it held before. Without such a file, as on a system on
  -- which no type was registered yet, it ends with the error of the loading and writes nothing.
  pub register_command_lem :
      (name scope : Bytes) (interval ttl : ℤ) (w : Surroundings) (s : SharedState Json)
      → name ≢ []
      → length name ≤ data_type_name_max_lenght
      → w.is_open ≡ true
      → w.conf_dir_err ≡ false
      → w.m_ok ≡ true
      → register_command name scope interval ttl w s
        ≡ registration name (new_conf name scope interval ttl) w.config
  register_command_lem name scope interval ttl w s =
      by_file name scope interval ttl w w.config s refl
