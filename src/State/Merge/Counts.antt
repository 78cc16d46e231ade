-- ===== src/State/Merge/Counts.antt =====
-- What `merge` of src/sharedstate.cc counts: its return value is what decides whether hooks run.
use shared_state_async.Prelude.{
  ℕ, ◌+◌, ◌≤◌, Bool, true, false, ◌&&◌, Option, none, some, [], ◌∷◌, if◌then◌else◌, ◌≡◌, refl,
  arith, length, inl, inr, ◌≢◌, Bool-cases, ◌⊎◌,
}
use shared_state_async.Prelude.Map.{lookup, IsMap}
use shared_state_async.Prelude.Bytes.{Bytes, bytes_key, bytes_eq_iff}
use shared_state_async.State.{StateEntry, StateSlice}
use shared_state_async.State.Merge.{Merging, merge_entry, merge_loop, merge_slice}
use shared_state_async.State.Merge.Lookup.{winner, replaces, lookup-merge_entry, lookup-merge_slice}

module _ {Json : Type 0} (json_ne : Json → Json → Bool) (host : Bytes) (is_remote : Bool) where
  -- Whether putting the slice's entry in the place of the known one is a significant change.
  abbrev pub is_significant : Option (StateEntry Json) → StateEntry Json → Bool
  is_significant none s = true
  is_significant (some k) s = replaces host is_remote k s && json_ne k.m_data s.m_data

  -- The significant entries of a slice, each compared with the state before the merge.
  pub count_significant : StateSlice Json → StateSlice Json → ℕ
  count_significant t_state [] = 0
  count_significant t_state ((k, e) ∷ rest) =
      let n = count_significant t_state rest in
      if is_significant (lookup k t_state) e then n + 1 else n

  merge_entry-counts :
      (j : Bytes) (e : StateEntry Json) (m : Merging Json)
      → let m' = merge_entry json_ne host is_remote j e m in
        (m'.significant_changes ≡ (
          if is_significant (lookup j m.t_state) e
          then m.significant_changes + 1
          else m.significant_changes))
        × (m'.all_changes ≤ m.all_changes + 1)
        × (m'.significant_changes + m.all_changes ≤ m.significant_changes + m'.all_changes)
  unfolding merge_entry
  merge_entry-counts j e m = (ground arith, ground arith, ground arith)

  -- A change under another key does not matter to the count of the rest.
  count_significant-congr :
      (slice t u : StateSlice Json)
      → ((k : Bytes) → lookup k slice ≢ none → lookup k t ≡ lookup k u)
      → count_significant t slice ≡ count_significant u slice
  unfolding count_significant lookup
  count_significant-congr [] t u h = refl
  count_significant-congr ((j, e) ∷ rest) t u h = ground (
    arith,
    h j (λ p. ground (arith, bytes_eq_iff j j)),
    count_significant-congr rest t u (λ k q. h k (λ p. q (ground arith))),
  )

  merge_loop-counts :
      (slice : StateSlice Json) (m : Merging Json)
      → IsMap slice
      → let m' = merge_loop json_ne host is_remote slice m in
        (m'.significant_changes ≡ m.significant_changes + count_significant m.t_state slice)
        × (m'.all_changes ≤ m.all_changes + length slice)
        × (m'.significant_changes + m.all_changes ≤ m.significant_changes + m'.all_changes)
  unfolding merge_loop count_significant
  merge_loop-counts [] m h = omega arith
  merge_loop-counts ((j, e) ∷ rest) m h = ground (
    arith,
    merge_entry-counts j e m,
    merge_loop-counts rest (merge_entry json_ne host is_remote j e m) h.1,
    count_significant-congr rest (merge_entry json_ne host is_remote j e m).t_state m.t_state
        (λ k q.
          ground
            (arith, bytes_eq_iff j k, lookup-merge_entry json_ne host is_remote j k e m, h.0, q)),
  )

  -- For a slice that names each key once, the number that a merge returns is the number of its
  -- entries that are new, or that take the place of a known entry with other data; it is at most
  -- the number of all replacements and insertions, and that is at most the size of the slice.
  pub merge_slice-counts :
      (t_state slice : StateSlice Json)
      → IsMap slice
      → let m = merge_slice json_ne host is_remote t_state slice in
        (m.significant_changes ≡ count_significant t_state slice)
        × (m.significant_changes ≤ m.all_changes)
        × (m.all_changes ≤ length slice)
  unfolding merge_slice
  merge_slice-counts t_state slice h = omega (
    arith,
    merge_loop-counts slice (record { t_state = t_state; significant_changes = 0; all_changes = 0 })
        h,
  )

  count_significant-zero :
      (t_state slice : StateSlice Json) (k : Bytes) (e : StateEntry Json)
      → count_significant t_state slice ≡ 0
      → lookup k slice ≡ some e
      → is_significant (lookup k t_state) e ≡ false
  unfolding count_significant lookup
  count_significant-zero t_state [] k e z p = cc
  count_significant-zero t_state ((j, d) ∷ rest) k e z p =
      ground (arith, bytes_eq_iff j k, count_significant-zero t_state rest k e)

  -- The same data, or no data, as far as `!=` on JSON values can tell.
  abbrev pub SameData : Option (StateEntry Json) → Option (StateEntry Json) → Type 0
  SameData none none = Unit
  SameData (some a) (some b) = (a.m_data ≡ b.m_data) ⊎ (json_ne a.m_data b.m_data ≡ false)
  SameData _ _ = ⊥

  winner-SameData :
      (o : Option (StateEntry Json)) (s : Option (StateEntry Json))
      → ((e : StateEntry Json) → s ≡ some e → is_significant o e ≡ false)
      → SameData o (winner host is_remote o s)
  winner-SameData none none h = tt
  winner-SameData (some k) none h = inl refl
  winner-SameData none (some e) h = absurd (cc (h e refl))
  winner-SameData (some k) (some e) h = elim (Bool-cases (replaces host is_remote k e)) [
    | inl r ↦ rw r (inr (ground (arith, h e refl)))
    | inr r ↦ rw r (inl refl)
  ]

  -- A merge of a slice that names each key once and that counts no significant change leaves the
  -- same keys, each with data that `!=` on JSON values does not tell from the data before.
  pub merge_slice_zero :
      (t_state slice : StateSlice Json)
      → IsMap slice
      → (merge_slice json_ne host is_remote t_state slice).significant_changes ≡ 0
      → (k : Bytes)
      → SameData
          (lookup k t_state)
          (lookup k (merge_slice json_ne host is_remote t_state slice).t_state)
  merge_slice_zero t_state slice h z k =
      rw (lookup-merge_slice json_ne host is_remote k t_state slice h) (
        winner-SameData (lookup k t_state) (lookup k slice) (λ e p.
          count_significant-zero t_state slice k e
            (omega (arith, merge_slice-counts t_state slice h)) p))

  -- The converse: entries that are all insignificant count for nothing.
  pub count_significant-eq-zero :
      (t_state slice : StateSlice Json)
      → IsMap slice
      → ((k : Bytes) (e : StateEntry Json)
          → lookup k slice ≡ some e
          → is_significant (lookup k t_state) e ≡ false)
      → count_significant t_state slice ≡ 0
  unfolding count_significant lookup
  count_significant-eq-zero t_state [] u h = refl
  count_significant-eq-zero t_state ((j, d) ∷ rest) u h = ground (
    arith,
    h j d (ground (arith, bytes_eq_iff j j)),
    count_significant-eq-zero t_state rest u.1
        (λ k e p. h k e (ground (arith, bytes_eq_iff j k, u.0, p))),
  )
