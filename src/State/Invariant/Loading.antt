-- ===== src/State/Invariant/Loading.antt =====
-- Reading and writing the configuration (src/sharedstate.cc) keep the invariant of the storage.
use mathlib.Core.Path.{subst}
use shared_state_async.Prelude.{
  Bool, true, false, Option, none, some, [], ◌∷◌, ◌≡◌, ◌≢◌, arith, Bool-cases, inl, inr, ltb,
  length,
}
use shared_state_async.Prelude.Int.{ℤ}
use shared_state_async.Prelude.Map.{
  lookup, insert, lookup-insert, IsMap, insert-IsMap, keep_if-IsMap,
}
use shared_state_async.Prelude.Bytes.{Bytes, bytes_key}
use shared_state_async.Errors.{Result, ok}
use shared_state_async.State.{StateSlice, DataTypeConf, SharedState}
use shared_state_async.State.Types.{
  data_type_name_max_lenght, ConfigFile, not_open, parse_error, parsed, is_registered, add_states,
  load_registered_types, Surroundings, write_conf, after_loading, register_data_type,
}
use shared_state_async.State.Types.Loading.{kept_or_empty, lookup-load, add_states-IsMap}
use shared_state_async.State.Invariant.{IsSlice, IsValid}

-- A file whose document names each type once, as a JSON object that fills a map does.
abbrev pub IsConfig : ConfigFile → Type 0
IsConfig (parsed conf _) = IsMap conf
IsConfig _ = Unit

module _ {Json : Type 0} where
  kept_or_empty-IsSlice :
      (c : Option DataTypeConf) (o : Option (StateSlice Json)) (t : StateSlice Json)
      → ((u : StateSlice Json) → o ≡ some u → IsSlice u)
      → kept_or_empty c o ≡ some t
      → IsSlice t
  kept_or_empty-IsSlice none o t h e = absurd (cc e)
  kept_or_empty-IsSlice (some c) none t h e =
      let p : [] ≡ t = ground arith in subst IsSlice p (tt, tt)
  kept_or_empty-IsSlice (some c) (some u) t h e = h t e

  -- Loading keeps the invariant, and after a load that reports success exactly the registered
  -- types have a state.
  pub load_registered_types-IsValid :
      (f : ConfigFile) (s : SharedState Json)
      → IsConfig f
      → IsValid s
      → IsValid (load_registered_types f s).1
        × ((load_registered_types f s).0 ≡ ok true
            → (k : Bytes) → lookup k (load_registered_types f s).1.m_type_conf ≢ none
            → lookup k (load_registered_types f s).1.m_states ≢ none)
  unfolding load_registered_types
  load_registered_types-IsValid not_open s c v = (v, λ p. cc)
  load_registered_types-IsValid parse_error s c v = (v, λ p. cc)
  load_registered_types-IsValid (parsed conf m_ok) s c v = (
    record {
      states_IsMap =
          keep_if-IsMap (is_registered conf) (add_states conf s.m_states)
            (add_states-IsMap conf s.m_states v.states_IsMap);
      conf_IsMap = c;
      registered = λ k e. ground (arith, lookup-load k conf s.m_states v.states_IsMap);
      slices = λ k t e.
          kept_or_empty-IsSlice (lookup k conf) (lookup k s.m_states) t (v.slices k)
            (rw (← lookup-load k conf s.m_states v.states_IsMap) e);
    },
    λ p k e. ground (arith, e, lookup-load k conf s.m_states v.states_IsMap),
  )

  write_conf-IsValid :
      (c : DataTypeConf) (w : Surroundings) (s : SharedState Json)
      → IsValid s
      → IsValid (write_conf c w s).storage
  unfolding write_conf
  write_conf-IsValid c w s v =
      let after : IsValid (record s { m_type_conf = insert c.m_name c s.m_type_conf }) = record {
        states_IsMap = v.states_IsMap;
        conf_IsMap = insert-IsMap c.m_name c s.m_type_conf v.conf_IsMap;
        registered =
            λ k e. v.registered k (ground (arith, lookup-insert c.m_name k c s.m_type_conf));
        slices = v.slices;
      } in
      ground arith

  after_loading-IsValid :
      (c : DataTypeConf) (w : Surroundings) (r : Result Bool) (s : SharedState Json)
      → IsValid s
      → IsValid (after_loading c w r s).storage
  unfolding after_loading
  after_loading-IsValid c w (ok true) s v = write_conf-IsValid c w s v
  after_loading-IsValid c w (ok false) s v = ground (arith, write_conf-IsValid c w s v)
  after_loading-IsValid c w _ s v = ground (arith, write_conf-IsValid c w s v)

  pub register_data_type-IsValid :
      (name scope : Bytes) (interval ttl : ℤ) (w : Surroundings) (s : SharedState Json)
      → IsConfig w.config
      → IsValid s
      → IsValid (register_data_type name scope interval ttl w s).storage
  unfolding register_data_type
  register_data_type-IsValid [] scope interval ttl w s c v = v
  register_data_type-IsValid (b ∷ bs) scope interval ttl w s c v =
      elim (Bool-cases (ltb data_type_name_max_lenght (length (b ∷ bs)))) [
        | inl long ↦ rw long v
        | inr fits ↦ rw fits (
            after_loading-IsValid _ w (load_registered_types w.config s).0
              (load_registered_types w.config s).1 (load_registered_types-IsValid w.config s c v).0)
      ]
