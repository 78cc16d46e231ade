-- ===== src/State/Types/Loading.antt =====
-- What `loadRegisteredTypes` of src/sharedstate.cc leaves in the storage.
use shared_state_async.Prelude.{Bool, Option, none, some, [], ◌∷◌, ◌≡◌, refl, arith}
use shared_state_async.Prelude.Map.{
  Map, lookup, keep_if, lookup-insert, lookup-keep_if, IsMap, insert-IsMap,
}
use shared_state_async.Prelude.Bytes.{Bytes, bytes_key, bytes_eq_iff}
use shared_state_async.Errors.{ok}
use shared_state_async.State.{DataTypeConf, StateSlice, SharedState}
use shared_state_async.State.Types.{parsed, touch, add_states, is_registered, load_registered_types}

module _ {Json : Type 0} where
  -- The state that a registered type has after a load: the one it had, or an empty one.
  abbrev pub kept_or_empty :
      Option DataTypeConf → Option (StateSlice Json) → Option (StateSlice Json)
  kept_or_empty none o = none
  kept_or_empty (some _) none = some []
  kept_or_empty (some _) (some t) = some t

  touch-IsMap : (name : Bytes) (m : Map Bytes (StateSlice Json)) → IsMap m → IsMap (touch name m)
  touch-IsMap name m h = ground (arith, insert-IsMap name [] m h)

  pub add_states-IsMap :
      (conf : Map Bytes DataTypeConf) (m : Map Bytes (StateSlice Json))
      → IsMap m
      → IsMap (add_states conf m)
  unfolding add_states
  add_states-IsMap [] m h = h
  add_states-IsMap ((name, c) ∷ conf) m h =
      add_states-IsMap conf (touch name m) (touch-IsMap name m h)

  abbrev added : Option DataTypeConf → Option (StateSlice Json) → Option (StateSlice Json)
  added (some _) none = some []
  added _ o = o

  lookup-add_states :
      (k : Bytes) (conf : Map Bytes DataTypeConf) (m : Map Bytes (StateSlice Json))
      → lookup k (add_states conf m) ≡ added (lookup k conf) (lookup k m)
  unfolding add_states lookup
  lookup-add_states k [] m = refl
  lookup-add_states k ((name, c) ∷ conf) m = ground (
    arith,
    lookup-add_states k conf (touch name m),
    lookup-insert name k [] m,
    bytes_eq_iff name k,
  )

  pub lookup-load :
      (k : Bytes) (conf : Map Bytes DataTypeConf) (m : Map Bytes (StateSlice Json))
      → IsMap m
      → lookup k (keep_if (is_registered conf) (add_states conf m))
        ≡ kept_or_empty (lookup k conf) (lookup k m)
  lookup-load k conf m h = ground (
    arith,
    lookup-keep_if (is_registered conf) k (add_states conf m) (add_states-IsMap conf m h),
    lookup-add_states k conf m,
  )

  -- Loading a file that parses puts its types in the place of the old ones, in a storage that
  -- names each type once. Exactly the types in the file have a state then: a type that had one
  -- keeps it as it was, a new one has an empty state, and the state of a type that the file does
  -- not name is gone.
  pub load_registered_types_lem :
      (conf : Map Bytes DataTypeConf) (m_ok : Bool) (s : SharedState Json)
      → IsMap s.m_states
      → let (r, s') = load_registered_types (parsed conf m_ok) s in
        (r ≡ ok m_ok)
        × (s'.m_type_conf ≡ conf)
        × ((k : Bytes) → lookup k s'.m_states ≡ kept_or_empty (lookup k conf) (lookup k s.m_states))
  unfolding load_registered_types
  load_registered_types_lem conf m_ok s h = (refl, refl, λ k. lookup-load k conf s.m_states h)
