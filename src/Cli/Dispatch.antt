-- ===== src/Cli/Dispatch.antt =====
-- `main` of app/shared-state-async.cc: what the arguments of the process start, and `discover` of
-- app/shared_state_cli.cc.
use shared_state_async.Prelude.{ℕ, ◌||◌, Option, none, some, List, [], ◌∷◌, if◌then◌else◌}
use shared_state_async.Prelude.Int.{ℤ, pos, wrap_int64}
use shared_state_async.Prelude.Bytes.{Bytes, bytes, bytes_eq}
use shared_state_async.Errors.{Result, ok, fail, throw, crash}

-- The operations; each ends the process when it is done.
pub data Operation (Addr : Type 0) : Type 0 where
  discover peer : Operation Addr
  dump get insert : Bytes → Operation Addr
  sync : Bytes → List Addr → Operation Addr
  register : Bytes → Bytes → ℤ → ℤ → Operation Addr

-- An operation, or what `main` returns: 0 after the usage, -EINVAL, the negative of `bad_address`.
-- `throws` is an exception of `std::stoul` that nothing catches.
pub data Start (Addr : Type 0) : Type 0 where
  runs : Operation Addr → Start Addr
  usage einval invalid_peer throws : Start Addr

-- `sockaddr_storage_inet_pton`, `sockaddr_storage_setport` with the port of the protocol, and
-- `std::stoul`, which throws on a text that is no number, are parameters.
module _ {Addr : Type 0} (inet_pton : Bytes → Option Addr) (set_port : Addr → Addr)
    (stoul : Bytes → Option ℕ) where
  abbrev pub cons_peer : Option Addr → Option (List Addr) → Option (List Addr)
  cons_peer (some addr) (some rest) = some (set_port addr ∷ rest)
  cons_peer _ _ = none

  -- The loop over the addresses; `none` where one is invalid.
  unfoldable pub peer_addresses : List Bytes → Option (List Addr)
  peer_addresses [] = some []
  peer_addresses (peer_addr_str ∷ rest) = cons_peer (inet_pton peer_addr_str) (peer_addresses rest)

  abbrev pub start_sync : Bytes → Option (List Addr) → Start Addr
  start_sync data_type_name none = invalid_peer
  start_sync data_type_name (some peers) = runs (sync data_type_name peers)

  abbrev pub start_register : Bytes → Bytes → Option ℕ → Option ℕ → Start Addr
  start_register data_type_name scope (some interval) (some ttl) =
      runs (register data_type_name scope (wrap_int64 (pos interval)) (wrap_int64 (pos ttl)))
  start_register data_type_name scope _ _ = throws

  -- `argc` has to be 6.
  unfoldable pub register_arguments : Bytes → List Bytes → Start Addr
  register_arguments data_type_name (scope ∷ interval ∷ ttl ∷ []) =
      start_register data_type_name scope (stoul interval) (stoul ttl)
  register_arguments data_type_name _ = einval

  -- The operations on a data type.
  unfoldable pub typed_operation : Bytes → Bytes → List Bytes → Start Addr
  typed_operation operation_name data_type_name rest =
      if bytes_eq operation_name (bytes "dump")
      then runs (dump data_type_name)
      else if bytes_eq operation_name (bytes "get")
      then runs (get data_type_name)
      else if bytes_eq operation_name (bytes "insert")
      then runs (insert data_type_name)
      else if bytes_eq operation_name (bytes "sync")
      then start_sync data_type_name (peer_addresses rest)
      else if bytes_eq operation_name (bytes "register")
      then register_arguments data_type_name rest
      else einval

  unfoldable pub with_data_type : Bytes → List Bytes → Start Addr
  with_data_type operation_name [] = einval
  with_data_type operation_name (data_type_name ∷ rest) =
      typed_operation operation_name data_type_name rest

  -- The arguments without the name of the program.
  unfoldable pub main : List Bytes → Start Addr
  main [] = einval
  main (operation_name ∷ arguments) =
      if bytes_eq operation_name (bytes "--help") || bytes_eq operation_name (bytes "help")
      then usage
      else if bytes_eq operation_name (bytes "discover")
      then runs discover
      else if bytes_eq operation_name (bytes "peer")
      then runs peer
      else with_data_type operation_name arguments

-- The addresses that `discover` prints, from what `getCandidatesNeighbours` gives.
unfoldable pub discovered : {Addr : Type 0} → Result (Unit {0}) × List Addr → Result (List Addr)
discovered (ok u, addresses) = ok addresses
discovered (fail e, addresses) = fail e
discovered (throw, addresses) = throw
discovered (crash, addresses) = crash
