-- ===== src/Tests/Storage.antt =====
-- Test data: a node that publishes entries of one type, and a neighbour that holds copies.
use shared_state_async.Prelude.{ℕ, Bool, true, false, not, ◌==◌, [], ◌∷◌, refl, arith}
use shared_state_async.Prelude.Int.{pos}
use shared_state_async.Prelude.Map.{Map, lookup, insert, place, replace, IsMap, keep_if}
use shared_state_async.Prelude.Bytes.{Bytes, bytes, bytes_eq, bytes_less, bytes_key}
use shared_state_async.State.{DataTypeConf, StateEntry, StateSlice, SharedState}
use shared_state_async.State.Merge.{merge, merge_slice, merge_loop, merge_entry}
use shared_state_async.State.Bleach.Laws.{HasRange}
use shared_state_async.State.Types.{
  parsed, ConfigFile, load_registered_types, add_states, Surroundings,
}
use shared_state_async.State.Invariant.{IsValid}
use shared_state_async.History.{Reach, start, next, step, loads, merges, init, Reach-IsValid}

-- JSON values are numbers here.
abbrev pub json_ne : ℕ → ℕ → Bool
json_ne a b = not (a == b)

abbrev pub lime : Bytes
lime = bytes "lime"

abbrev pub node : Bytes
node = bytes "node"

abbrev pub babel : Bytes
babel = bytes "babel"

abbrev pub wifi : Bytes
wifi = bytes "wifi"

abbrev pub key_a : Bytes
key_a = bytes "a"

abbrev pub entry : Bytes → ℕ → ℕ → StateEntry ℕ
entry author ttl value = record { m_author = author; m_ttl = pos ttl; m_data = value }

abbrev pub own : StateEntry ℕ
own = entry lime 10 1

abbrev pub same_ttl : StateEntry ℕ
same_ttl = entry lime 10 7

abbrev pub copy : StateEntry ℕ
copy = entry lime 90 7

-- What the node holds.
abbrev pub held : StateSlice ℕ
held = (bytes "a", own) ∷ (bytes "b", entry node 5 2) ∷ []

-- What the neighbour holds: a copy with a higher TTL, a newer entry, one more key.
abbrev pub received : StateSlice ℕ
received = (bytes "a", copy) ∷ (bytes "b", entry node 9 3) ∷ (bytes "c", entry node 4 4) ∷ []

-- The same with another value at the same TTL in the first place.
abbrev pub overwriting : StateSlice ℕ
overwriting = (bytes "a", same_ttl) ∷ []

-- Nothing new: the known entries, and an older one.
abbrev pub stale : StateSlice ℕ
stale = (bytes "a", own) ∷ (bytes "b", entry node 3 8) ∷ []

abbrev pub conf : DataTypeConf
conf = record {
  m_name = babel;
  m_scope = bytes "community";
  m_update_interval = pos 30;
  m_bleach_ttl = pos 120;
}

abbrev pub confs : Map Bytes DataTypeConf
confs = (babel, conf) ∷ []

abbrev pub storage : SharedState ℕ
storage = record { m_states = (babel, held) ∷ []; m_type_conf = confs; is_peer = true }

abbrev pub registered_only : SharedState ℕ
registered_only = record { m_states = (babel, []) ∷ []; m_type_conf = confs; is_peer = true }

-- A process that has not loaded the types.
abbrev pub empty : SharedState ℕ
empty = init true

abbrev pub config : ConfigFile
config = parsed confs true

abbrev pub surroundings : Surroundings
surroundings = record {
  config = config;
  conf_dir_err = false;
  is_open = true;
  m_ok = true;
  incomplete = [];
}

pub held-IsMap : IsMap held
unfolding lookup bytes_eq
held-IsMap = (refl, (refl, tt))

pub received-IsMap : IsMap received
unfolding lookup bytes_eq
received-IsMap = (refl, (refl, (refl, tt)))

pub stale-IsMap : IsMap stale
unfolding lookup bytes_eq
stale-IsMap = (refl, (refl, tt))

pub overwriting-IsMap : IsMap overwriting
unfolding lookup
overwriting-IsMap = (refl, tt)

pub confs-IsMap : IsMap confs
unfolding lookup
confs-IsMap = (refl, tt)

pub states-IsMap : IsMap storage.m_states
unfolding lookup
states-IsMap = (refl, tt)

pub held-HasRange : HasRange held
held-HasRange = ((omega arith, omega arith), ((omega arith, omega arith), tt))

pub received-HasRange : HasRange received
received-HasRange =
    ((omega arith, omega arith), ((omega arith, omega arith), ((omega arith, omega arith), tt)))

-- The storage as a process comes to it: the types are loaded, then the command line inserts.
pub storage-Reach : Reach json_ne lime true storage
unfolding step lookup insert place replace bytes_eq bytes_less merge merge_slice merge_loop
    merge_entry load_registered_types add_states keep_if
storage-Reach =
    next (next start (loads config) confs-IsMap refl) (merges false babel held) held-HasRange refl

pub storage-IsValid : IsValid storage
storage-IsValid = Reach-IsValid json_ne lime storage-Reach
