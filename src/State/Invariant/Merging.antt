-- ===== src/State/Invariant/Merging.antt =====
-- `merge` and `bleach` of src/sharedstate.cc keep the invariant of the storage.
use shared_state_async.Prelude.{
  ℕ, Bool, none, [], ◌∷◌, ◌≡◌, ◌≢◌, refl, arith, Option-cases, Bool-cases, inl, inr,
}
use shared_state_async.Prelude.Int.{ℤ, pos, ◌≤ℤ◌, ltb_ℤ, IsInt64}
use shared_state_async.Prelude.Map.{lookup, insert, erase, lookup-insert, insert-All, erase-All}
use shared_state_async.Prelude.Bytes.{Bytes, bytes_key}
use shared_state_async.Errors.{ok, throw}
use shared_state_async.State.{StateEntry, StateSlice, SharedState}
use shared_state_async.State.Merge.{Merging, merge_entry, merge_loop, merge_slice, merge}
use shared_state_async.State.Merge.Lookup.{merge_slice-IsMap}
use shared_state_async.State.Bleach.{bleach_slice, bleach}
use shared_state_async.State.Bleach.Laws.{HasRange, bleach_slice-IsMap}
use shared_state_async.State.Bleach.Steps.{bleach_slice-IsAlive}
use shared_state_async.State.Invariant.{IsSlice, IsValid, set_state-IsValid}

module _ {Json : Type 0} (json_ne : Json → Json → Bool) (host : Bytes) (is_remote : Bool) where
  merge_entry-HasRange :
      (j : Bytes) (e : StateEntry Json) (m : Merging Json)
      → IsInt64 e.m_ttl
      → HasRange m.t_state
      → HasRange (merge_entry json_ne host is_remote j e m).t_state
  unfolding merge_entry
  merge_entry-HasRange j e m r h =
      let P : Bytes × StateEntry Json → Type 0 = λ item. IsInt64 item.1.m_ttl in
      let new : HasRange (insert j e m.t_state) = insert-All P j e m.t_state r h in
      let renewed : HasRange (insert j e (erase j m.t_state)) =
        insert-All P j e (erase j m.t_state) r (erase-All P j m.t_state h) in
      ground arith

  merge_loop-HasRange :
      (slice : StateSlice Json) (m : Merging Json)
      → HasRange slice
      → HasRange m.t_state
      → HasRange (merge_loop json_ne host is_remote slice m).t_state
  unfolding merge_loop
  merge_loop-HasRange [] m r h = h
  merge_loop-HasRange ((j, e) ∷ rest) m r h =
      merge_loop-HasRange rest (merge_entry json_ne host is_remote j e m) r.1
        (merge_entry-HasRange j e m r.0 h)

  merge_slice-IsSlice :
      (t_state slice : StateSlice Json)
      → IsSlice t_state
      → HasRange slice
      → IsSlice (merge_slice json_ne host is_remote t_state slice).t_state
  merge_slice-IsSlice t_state slice h r = (
    merge_slice-IsMap json_ne host is_remote t_state slice h.0,
    unfold merge_slice in merge_loop-HasRange slice _ r h.1,
  )

  -- A merge of any slice keeps the invariant; in a valid storage it never throws, it fails only
  -- for a type without a state, and every type has a state afterwards that had one before.
  pub merge-IsValid :
      (name : Bytes) (slice : StateSlice Json) (s : SharedState Json)
      → IsValid s
      → HasRange slice
      → IsValid (merge json_ne host is_remote name slice s).1
        × ((merge json_ne host is_remote name slice s).0 ≢ throw)
        × ((k : Bytes)
            → lookup k s.m_states ≢ none
            → lookup k (merge json_ne host is_remote name slice s).1.m_states ≢ none)
  unfolding merge
  merge-IsValid name slice s v r = elim (Option-cases (lookup name s.m_states)) [
    | inl unknown ↦ rw (unknown, merge) (v, λ p. cc, λ k h. h)
    | inr (t, known) ↦ elim (Option-cases (lookup name s.m_type_conf)) [
      | inl unregistered ↦ absurd (cc (v.registered name unregistered, known))
      | inr (c, registered) ↦
          let t' = (merge_slice json_ne host is_remote t slice).t_state in
          rw (known, merge, registered)
            (
              set_state-IsValid name t' s v (λ p. cc)
                  (merge_slice-IsSlice t slice (v.slices name t known) r),
              λ p. cc,
              λ k h p. h (ground (arith, lookup-insert name k t' s.m_states)),
            )
    ]
  ]

module _ {Json : Type 0} where
  -- A bleach keeps the invariant. For an elapsed time of a second or more and a type that has a
  -- state it succeeds.
  pub bleach-IsValid :
      (name : Bytes) (times : ℤ) (s : SharedState Json)
      → IsValid s
      → IsValid (bleach name times s).1
        × (pos 1 ≤ℤ times
            → lookup name s.m_states ≢ none
            → (n : ℕ) × ((bleach name times s).0 ≡ ok n))
  unfolding bleach
  bleach-IsValid name times s v = elim (Bool-cases (ltb_ℤ times (pos 1))) [
    | inl short ↦ rw (short, bleach) (v, λ h k. absurd (ground arith))
    | inr long ↦ elim (Option-cases (lookup name s.m_states)) [
      | inl unknown ↦ rw (long, bleach, unknown) (v, λ h k. absurd (k refl))
      | inr (t, known) ↦
          let slice : IsSlice t = v.slices name t known in
          rw (long, bleach, known)
            (
              set_state-IsValid name (bleach_slice times t) s v (λ p. cc)
                  (
                    bleach_slice-IsMap times t slice.0,
                    (bleach_slice-IsAlive times t (ground arith) slice.1).1,
                  ),
              λ h k. (_, refl),
            )
    ]
  ]
