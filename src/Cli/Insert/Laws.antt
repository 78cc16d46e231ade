-- ===== src/Cli/Insert/Laws.antt =====
-- What `SharedStateCli::insert` of app/shared_state_cli.cc leaves in the storage.
use shared_state_async.Prelude.{
  Option, some, List, [], ◌∷◌, ◌≡◌, ◌≢◌, refl, arith, if◌then◌else◌, Option-cases, inl, inr,
}
use shared_state_async.Prelude.Int.{ℤ, pos, ◌+ℤ◌, IsInt64}
use shared_state_async.Prelude.Map.{lookup, lookup-insert, insert-IsMap, insert-All}
use shared_state_async.Prelude.Bytes.{Bytes, bytes_eq, bytes_key, bytes_eq_iff, bytes_eq_refl}
use shared_state_async.Errors.{ok, Result-cases}
use shared_state_async.State.{StateEntry, StateSlice, DataTypeConf, SharedState}
use shared_state_async.State.Invariant.{IsSlice, IsValid, set_state-IsValid}
use shared_state_async.Cli.Insert.{
  conf_at, inserted_ttl, insert_member, insert_loop, insert_members,
}

-- The sum in the source, where nothing overflows.
inserted_ttl_fits :
    (c : DataTypeConf)
    → IsInt64 (c.m_bleach_ttl +ℤ c.m_update_interval)
    → IsInt64 (c.m_bleach_ttl +ℤ c.m_update_interval +ℤ pos 1)
    → inserted_ttl c ≡ ok (c.m_bleach_ttl +ℤ c.m_update_interval +ℤ pos 1)
unfolding inserted_ttl
inserted_ttl_fits c h k = ground (arith, h, k)

inserted_ttl-IsInt64 : (c : DataTypeConf) (ttl : ℤ) → inserted_ttl c ≡ ok ttl → IsInt64 ttl
unfolding inserted_ttl
inserted_ttl-IsInt64 c ttl h = ground (arith, h)

module _ {Json : Type 0} (host : Bytes) where
  -- The last member with the name, as an entry of this host with this TTL; else the entry that was
  -- there.
  abbrev pub last_member :
      ℤ → Bytes → List (Bytes × Json) → Option (StateEntry Json) → Option (StateEntry Json)
  last_member ttl k [] o = o
  last_member ttl k ((name, value) ∷ rest) o = last_member ttl k rest (
      if bytes_eq name k then some (record { m_author = host; m_ttl = ttl; m_data = value }) else o)

  lookup-insert_loop :
      (k : Bytes) (ttl : ℤ) (members : List (Bytes × Json)) (t : StateSlice Json)
      → lookup k (insert_loop host ttl members t) ≡ last_member ttl k members (lookup k t)
  unfolding insert_loop insert_member
  lookup-insert_loop k ttl [] t = refl
  lookup-insert_loop k ttl ((name, value) ∷ rest) t =
      rw (lookup-insert_loop k ttl rest (insert_member host ttl (name, value) t), lookup-insert)
        refl

  insert_loop-IsSlice :
      (ttl : ℤ) (members : List (Bytes × Json)) (t : StateSlice Json)
      → IsInt64 ttl
      → IsSlice t
      → IsSlice (insert_loop host ttl members t)
  unfolding insert_loop insert_member
  insert_loop-IsSlice ttl [] t i h = h
  insert_loop-IsSlice ttl ((name, value) ∷ rest) t i h =
      insert_loop-IsSlice ttl rest (insert_member host ttl (name, value) t) i
        (insert-IsMap name _ t h.0, insert-All (λ item. IsInt64 item.1.m_ttl) name _ t i h.1)

  -- An insertion with the TTL that has been computed.
  inserted :
      (name : Bytes) (members : List (Bytes × Json)) (t : StateSlice Json) (c : DataTypeConf)
      (ttl : ℤ) (s : SharedState Json)
      → IsValid s
      → lookup name s.m_states ≡ some t
      → lookup name s.m_type_conf ≡ some c
      → inserted_ttl c ≡ ok ttl
      → let (r, s') = insert_members host name members s in
        (r ≡ ok tt)
        × (lookup name s'.m_states ≡ some (insert_loop host ttl members t))
        × ((other : Bytes) → name ≢ other → lookup other s'.m_states ≡ lookup other s.m_states)
        × (s'.m_type_conf ≡ s.m_type_conf)
        × IsValid s'
  unfolding insert_members
  inserted name [] t c ttl s v known registered e =
      rw (known, insert_members) (refl, unfold insert_loop in known, λ other ne. refl, refl, v)
  inserted name (m ∷ ms) t c ttl s v known registered e =
      let t' = insert_loop host ttl (m ∷ ms) t in
      let kept : (conf_at name s.m_type_conf).0 ≡ s.m_type_conf = rw (conf_at, registered) refl in
      let found : (conf_at name s.m_type_conf).1 ≡ c = rw (conf_at, registered) refl in
      rw (known, insert_members, found, e, kept)
        (
          refl,
          rw (lookup-insert, bytes_eq_refl name) refl,
          λ other ne.
              ground (arith, lookup-insert name other t' s.m_states, bytes_eq_iff name other),
          refl,
          set_state-IsValid name t' s v (λ p. cc)
              (insert_loop-IsSlice ttl (m ∷ ms) t (inserted_ttl-IsInt64 c ttl e)
                (v.slices name t known)),
        )

  -- In a valid storage, for a type with a state and a configuration of which the bleach TTL and the
  -- update interval, and their sum and a second, are `int64_t` values, an insertion succeeds. Each
  -- member of the object becomes an entry of this host with its value, the last one of a name, and
  -- with that sum to live, the second included; the other entries, the other types and the
  -- configurations stay as they were, and the storage is valid again.
  pub insert_members_lem :
      (name : Bytes) (members : List (Bytes × Json)) (t : StateSlice Json) (c : DataTypeConf)
      (s : SharedState Json)
      → IsValid s
      → lookup name s.m_states ≡ some t
      → lookup name s.m_type_conf ≡ some c
      → IsInt64 (c.m_bleach_ttl +ℤ c.m_update_interval)
      → IsInt64 (c.m_bleach_ttl +ℤ c.m_update_interval +ℤ pos 1)
      → let ttl = c.m_bleach_ttl +ℤ c.m_update_interval +ℤ pos 1 in
        let (r, s') = insert_members host name members s in
        (r ≡ ok tt)
        × (lookup name s'.m_states ≡ some (insert_loop host ttl members t))
        × ((k : Bytes)
            → lookup k (insert_loop host ttl members t) ≡ last_member ttl k members (lookup k t))
        × ((other : Bytes) → name ≢ other → lookup other s'.m_states ≡ lookup other s.m_states)
        × (s'.m_type_conf ≡ s.m_type_conf)
        × IsValid s'
  insert_members_lem name members t c s v known registered h i =
      let ttl = c.m_bleach_ttl +ℤ c.m_update_interval +ℤ pos 1 in
      let done = inserted name members t c ttl s v known registered (inserted_ttl_fits c h i) in
      (done.0, done.1, λ k. lookup-insert_loop k ttl members t, done.2, done.3, done.4)

  -- In every case the storage stays valid.
  pub insert_members-IsValid :
      (name : Bytes) (members : List (Bytes × Json)) (s : SharedState Json)
      → IsValid s
      → IsValid (insert_members host name members s).1
  insert_members-IsValid name members s v = elim (Option-cases (lookup name s.m_states)) [
    | inl unknown ↦ unfold insert_members in rw (unknown, insert_members) v
    | inr (t, known) ↦ elim (Option-cases (lookup name s.m_type_conf)) [
      | inl unregistered ↦ absurd (cc (v.registered name unregistered, known))
      | inr (c, registered) ↦ elim (Result-cases (inserted_ttl c)) [
        | inl (ttl, e) ↦ (inserted name members t c ttl s v known registered e).4
        | inr (inl (x, e)) ↦ unfold insert_members in ground (arith, known, registered, e, v)
        | inr (inr (inl e)) ↦ unfold insert_members in ground (arith, known, registered, e, v)
        | inr (inr (inr e)) ↦ unfold insert_members in ground (arith, known, registered, e, v)
      ]
    ]
  ]
