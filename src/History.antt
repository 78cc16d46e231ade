-- ===== src/History.antt =====
-- A process as a sequence of the calls that change its storage: the merges and bleaches of
-- src/sharedstate.cc, the insertions of app/shared_state_cli.cc, and the reads and writes of the configuration.
use shared_state_async.Prelude.{Bool, List, [], ◌≡◌, ◌≢◌, refl}
use shared_state_async.Prelude.Int.{ℤ}
use shared_state_async.Prelude.Map.{lookup}
use shared_state_async.Prelude.Bytes.{Bytes, bytes_key}
use shared_state_async.Errors.{throw}
use shared_state_async.State.{StateSlice, SharedState}
use shared_state_async.State.Merge.{merge}
use shared_state_async.State.Bleach.{bleach}
use shared_state_async.State.Bleach.Laws.{HasRange}
use shared_state_async.State.Types.{
  ConfigFile, load_registered_types, Surroundings, register_data_type,
}
use shared_state_async.Cli.Insert.{insert_members}
use shared_state_async.Cli.Insert.Laws.{insert_members-IsValid}
use shared_state_async.State.Invariant.{IsValid}
use shared_state_async.State.Invariant.Merging.{merge-IsValid, bleach-IsValid}
use shared_state_async.State.Invariant.Loading.{
  IsConfig, load_registered_types-IsValid, register_data_type-IsValid,
}

-- The storage of a new process, before the constructor of `SharedStateCli` loads the types.
abbrev pub init : {Json : Type 0} → Bool → SharedState Json
init is_peer = record { m_states = []; m_type_conf = []; is_peer = is_peer }

pub data Call (Json : Type 0) : Type 0 where
  merges : Bool → Bytes → StateSlice Json → Call Json
  bleaches : Bytes → ℤ → Call Json
  loads : ConfigFile → Call Json
  registers : Bytes → Bytes → ℤ → ℤ → Surroundings → Call Json
  inserts : Bytes → List (Bytes × Json) → Call Json

-- What the other parts give to a call: TTLs that are `int64_t` values, and a configuration that
-- names each type once.
abbrev pub IsCall : {Json : Type 0} → Call Json → Type 0
IsCall (merges _ _ slice) = HasRange slice
IsCall (bleaches _ _) = Unit
IsCall (loads f) = IsConfig f
IsCall (registers _ _ _ _ w) = IsConfig w.config
IsCall (inserts _ _) = Unit

module _ {Json : Type 0} (json_ne : Json → Json → Bool) (host : Bytes) where
  unfoldable pub step : SharedState Json → Call Json → SharedState Json
  step s (merges is_remote name slice) = (merge json_ne host is_remote name slice s).1
  step s (bleaches name times) = (bleach name times s).1
  step s (loads f) = (load_registered_types f s).1
  step s (registers name scope interval ttl w) =
      (register_data_type name scope interval ttl w s).storage
  step s (inserts name members) = (insert_members host name members s).1

  -- The storages that a process can come to.
  pub data Reach (is_peer : Bool) : SharedState Json → Type 0 where
    start : Reach is_peer (init is_peer)
    next :
        {s t : SharedState Json}
        → Reach is_peer s
        → (c : Call Json) → IsCall c
        → t ≡ step s c
        → Reach is_peer t

  IsValid-init : (is_peer : Bool) → IsValid (init {Json = Json} is_peer)
  unfolding lookup
  IsValid-init is_peer = record {
    states_IsMap = tt;
    conf_IsMap = tt;
    registered = λ k e. refl;
    slices = λ k t e. absurd (cc e);
  }

  step-IsValid : (s : SharedState Json) (c : Call Json) → IsCall c → IsValid s → IsValid (step s c)
  unfolding step
  step-IsValid s (merges is_remote name slice) h v =
      (merge-IsValid json_ne host is_remote name slice s v h).0
  step-IsValid s (bleaches name times) h v = (bleach-IsValid name times s v).0
  step-IsValid s (loads f) h v = (load_registered_types-IsValid f s h v).0
  step-IsValid s (registers name scope interval ttl w) h v =
      register_data_type-IsValid name scope interval ttl w s h v
  step-IsValid s (inserts name members) h v = insert_members-IsValid host name members s v

  -- Whatever calls a process makes, in any order, with received TTLs that are `int64_t` values and
  -- configuration files that name each type once, the storage stays well-formed: each map names a
  -- key once, every TTL is an `int64_t` value, and no type has a state without a configuration.
  pub Reach-IsValid : {is_peer : Bool} {s : SharedState Json} → Reach is_peer s → IsValid s
  Reach-IsValid {is_peer} start = IsValid-init is_peer
  Reach-IsValid (next {s} r c h e) = rw e (step-IsValid s c h (Reach-IsValid r))

  -- After any such calls of a process, `mTypeConf.at` does not throw in a merge of a slice whose
  -- TTLs are `int64_t` values.
  pub merge_never_throws :
      {is_peer : Bool} {s : SharedState Json}
      → Reach is_peer s
      → (is_remote : Bool) (name : Bytes) (slice : StateSlice Json) → HasRange slice
      → (merge json_ne host is_remote name slice s).0 ≢ throw
  merge_never_throws {s = s} r is_remote name slice h =
      (merge-IsValid json_ne host is_remote name slice s (Reach-IsValid r) h).1
