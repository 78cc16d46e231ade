-- ===== src/State/Types/Registering.antt =====
-- What `registerDataType` of src/sharedstate.cc writes, and what a process reads from it.
use shared_state_async.Prelude.{
  true, false, ◌≤◌, ◌<◌, none, some, [], ◌∷◌, ◌≡◌, ◌≢◌, refl, arith, length, if◌then◌else◌, ◌⊎◌,
  inl, inr,
}
use shared_state_async.Prelude.Int.{ℤ}
use shared_state_async.Prelude.Map.{Map, lookup, insert, lookup-insert, IsMap}
use shared_state_async.Prelude.Bytes.{Bytes, bytes_eq, bytes_key, bytes_eq_refl}
use shared_state_async.Errors.{ok, fail, invalid_argument}
use shared_state_async.State.{DataTypeConf, SharedState}
use shared_state_async.State.Types.{
  data_type_name_max_lenght, ConfigFile, not_open, parse_error, parsed, load_registered_types,
  Surroundings, write_conf, after_loading, register_data_type,
}
use shared_state_async.State.Types.Loading.{kept_or_empty, load_registered_types_lem}

abbrev pub new_conf : Bytes → Bytes → ℤ → ℤ → DataTypeConf
new_conf name scope interval ttl = record {
  m_name = name;
  m_scope = scope;
  m_update_interval = interval;
  m_bleach_ttl = ttl;
}

module _ {Json : Type 0} where
  -- The configuration that a registration starts from: the file's, or the process's own where the
  -- file cannot be read.
  abbrev pub base_conf : ConfigFile → SharedState Json → Map Bytes DataTypeConf
  base_conf (parsed conf _) s = conf
  base_conf _ s = s.m_type_conf

  -- A type name that is empty or longer than 128 bytes is refused: the storage and the file stay
  -- as they were.
  pub register_data_type_refused :
      (name scope : Bytes) (interval ttl : ℤ) (w : Surroundings) (s : SharedState Json)
      → (name ≡ []) ⊎ (data_type_name_max_lenght < length name)
      → register_data_type name scope interval ttl w s
        ≡ record { result = fail invalid_argument; storage = s; written = none }
  unfolding register_data_type
  register_data_type_refused [] scope interval ttl w s h = refl
  register_data_type_refused (b ∷ bs) scope interval ttl w s (inl e) = absurd (cc e)
  register_data_type_refused (b ∷ bs) scope interval ttl w s (inr long) = ground arith

  pub registered :
      (name scope : Bytes) (interval ttl : ℤ) (w : Surroundings) (f : ConfigFile)
      (s : SharedState Json)
      → w.config ≡ f
      → name ≢ []
      → length name ≤ data_type_name_max_lenght
      → w.is_open ≡ true
      → w.conf_dir_err ≡ false
      → w.m_ok ≡ true
      → ((register_data_type name scope interval ttl w s).result ≡ ok true)
        × ((register_data_type name scope interval ttl w s).written
            ≡ some (insert name (new_conf name scope interval ttl) (base_conf f s)))
  unfolding register_data_type load_registered_types after_loading write_conf
  registered [] scope interval ttl w f s e h fits o d m = absurd (h refl)
  registered (b ∷ bs) scope interval ttl w not_open s e h fits o d m = (ground arith, ground arith)
  registered (b ∷ bs) scope interval ttl w parse_error s e h fits o d m =
      (ground arith, ground arith)
  registered (b ∷ bs) scope interval ttl w (parsed conf true) s e h fits o d m =
      (ground arith, ground arith)
  registered (b ∷ bs) scope interval ttl w (parsed conf false) s e h fits o d m =
      (ground arith, ground arith)

  -- `registerDataType` registers a type name of 1 to 128 bytes where the directory is there or can be
  -- made, the file opens for writing and the serializer succeeds. The file then holds the new configuration under the name, and
  -- under every other name what it held before, or what the process knew where the old file could
  -- not be read. A process that reads this back from the file gives the type a state: the one it
  -- had for it, or an empty one.
  pub register_data_type_lem :
      (name scope : Bytes) (interval ttl : ℤ) (w : Surroundings) (s other : SharedState Json)
      → name ≢ []
      → length name ≤ data_type_name_max_lenght
      → w.is_open ≡ true
      → w.conf_dir_err ≡ false
      → w.m_ok ≡ true
      → IsMap other.m_states
      → let conf = insert name (new_conf name scope interval ttl) (base_conf w.config s) in
        ((register_data_type name scope interval ttl w s).result ≡ ok true)
        × ((register_data_type name scope interval ttl w s).written ≡ some conf)
        × ((k : Bytes)
            → lookup k conf ≡ (
                if bytes_eq name k
                then some (new_conf name scope interval ttl)
                else lookup k (base_conf w.config s)))
        × (lookup name (load_registered_types (parsed conf true) other).1.m_states
            ≡ kept_or_empty (some (new_conf name scope interval ttl)) (lookup name other.m_states))
  register_data_type_lem name scope interval ttl w s other h fits o d m u =
      let c : DataTypeConf = new_conf name scope interval ttl in
      let conf = insert name c (base_conf w.config s) in
      let r = registered name scope interval ttl w w.config s refl h fits o d m in
      (
        r.0,
        r.1,
        λ k. lookup-insert name k c (base_conf w.config s),
        rw ((load_registered_types_lem conf true other u).2 name, lookup-insert, bytes_eq_refl name)
            refl,
      )
