-- ===== src/State/Merge/Sync.antt =====
-- Laws of `merge` that the protocol rests on: repetition, own entries, and what two nodes agree on
-- after each has merged what the other holds.
use shared_state_async.Prelude.{
  Bool, true, false, Option, none, some, ◌≡◌, refl, arith, Bool-cases, inl, inr, ◌∙◌,
}
use shared_state_async.Prelude.Int.{
  ◌≤ℤ◌, ◌<ℤ◌, eq_of_parts, pos, ◌+ℤ◌, +ℤ_parts, IsInt64, wrap_int64_of_IsInt64,
}
use shared_state_async.Prelude.Map.{lookup, IsMap}
use shared_state_async.Prelude.Bytes.{Bytes, bytes_key, bytes_eq_iff}
use shared_state_async.State.{StateEntry, StateSlice}
use shared_state_async.State.Merge.{is_discarded, min_update_ttl, merge_slice}
use shared_state_async.State.Merge.Counts.{
  is_significant, count_significant-eq-zero, merge_slice-counts,
}
use shared_state_async.State.Merge.Lookup.{winner, replaces, lookup-merge_slice, merge_slice-IsMap}

module _ {Json : Type 0} (json_ne : Json → Json → Bool) (host : Bytes) (is_remote : Bool) where
  winner_twice :
      (o s : Option (StateEntry Json))
      → winner host is_remote (winner host is_remote o s) s ≡ winner host is_remote o s
  winner_twice none none = refl
  winner_twice (some k) none = refl
  winner_twice none (some e) = ground arith
  winner_twice (some k) (some e) = ground arith

  winner-insignificant :
      (o : Option (StateEntry Json)) (e : StateEntry Json)
      → json_ne e.m_data e.m_data ≡ false
      → is_significant json_ne host is_remote (winner host is_remote o (some e)) e ≡ false
  winner-insignificant none e h = ground arith
  winner-insignificant (some k) e h = elim (Bool-cases (replaces host is_remote k e)) [
    | inl r ↦ rw (r, h) (ground arith)
    | inr r ↦ rw r (ground arith)
  ]

  -- Receiving a slice again, which names each key once and whose JSON values are equal to
  -- themselves, changes no entry and counts no significant change.
  pub merge_slice_twice :
      (t_state slice : StateSlice Json)
      → IsMap slice
      → ((k : Bytes) (e : StateEntry Json)
          → lookup k slice ≡ some e
          → json_ne e.m_data e.m_data ≡ false)
      → let t' = (merge_slice json_ne host is_remote t_state slice).t_state in
        ((k : Bytes) → lookup k (merge_slice json_ne host is_remote t' slice).t_state ≡ lookup k t')
        × ((merge_slice json_ne host is_remote t' slice).significant_changes ≡ 0)
  merge_slice_twice t_state slice h self =
      let t' = (merge_slice json_ne host is_remote t_state slice).t_state in
      (
        λ k. cc (
          lookup-merge_slice json_ne host is_remote k t_state slice h,
          lookup-merge_slice json_ne host is_remote k t' slice h,
          winner_twice (lookup k t_state) (lookup k slice),
        ),
        (merge_slice-counts json_ne host is_remote t' slice h).0
            ∙ count_significant-eq-zero json_ne host is_remote t' slice h (λ k e p.
              rw (lookup-merge_slice json_ne host is_remote k t_state slice h, p)
                (winner-insignificant (lookup k t_state) e (self k e p))),
      )

  -- No merge of a slice that names each key once removes a key or lowers the TTL under it.
  pub merge_slice_grows :
      (k : Bytes) (t_state slice : StateSlice Json) (known : StateEntry Json)
      → IsMap slice
      → lookup k t_state ≡ some known
      → (e : StateEntry Json) × (lookup k (merge_slice json_ne host is_remote t_state slice).t_state
          ≡ some e)
        × (known.m_ttl ≤ℤ e.m_ttl)
  merge_slice_grows k t_state slice known h p =
      rw (lookup-merge_slice json_ne host is_remote k t_state slice h, p) (go (lookup k slice))
    where
      go :
          (s : Option (StateEntry Json))
          → (e : StateEntry Json) × (winner host is_remote (some known) s ≡ some e)
            × (known.m_ttl ≤ℤ e.m_ttl)
      go none = (known, refl, omega arith)
      go (some s) = elim (Bool-cases (replaces host is_remote known s)) [
        | inl r ↦ (s, rw r refl, ground arith)
        | inr r ↦ (known, rw r refl, omega arith)
      ]

  -- A merge from a remote address, of a slice that names each key once, leaves the TTL of an entry
  -- of this host's own authorship as it was.
  pub merge_slice-own_ttl :
      (k : Bytes) (t_state slice : StateSlice Json) (known : StateEntry Json)
      → IsMap slice
      → is_remote ≡ true
      → known.m_author ≡ host
      → lookup k t_state ≡ some known
      → (e : StateEntry Json) × (lookup k (merge_slice json_ne host is_remote t_state slice).t_state
          ≡ some e)
        × (e.m_ttl ≡ known.m_ttl)
  merge_slice-own_ttl k t_state slice known h remote own p =
      rw (lookup-merge_slice json_ne host is_remote k t_state slice h, p) (go (lookup k slice))
    where
      go :
          (s : Option (StateEntry Json))
          → (e : StateEntry Json) × (winner host is_remote (some known) s ≡ some e)
            × (e.m_ttl ≡ known.m_ttl)
      go none = (known, refl, refl)
      go (some s) = elim (Bool-cases (replaces host is_remote known s)) [
        | inl r ↦ (
          s,
          rw r refl,
          eq_of_parts s.m_ttl known.m_ttl (ground (arith, bytes_eq_iff known.m_author host)),
        )
        | inr r ↦ (known, rw r refl, refl)
      ]

  -- A remote copy with the same TTL takes the place of an entry of this host's own authorship, and
  -- its TTL is below the `minUpdateTtl` that the code computes, where a second more is still an
  -- `int64_t` value.
  pub merge_slice-own_overwritten :
      (k : Bytes) (t_state slice : StateSlice Json) (known e : StateEntry Json)
      → IsMap slice
      → is_remote ≡ true
      → known.m_author ≡ host
      → lookup k t_state ≡ some known
      → lookup k slice ≡ some e
      → e.m_ttl ≡ known.m_ttl
      → IsInt64 (known.m_ttl +ℤ pos 1)
      → (lookup k (merge_slice json_ne host is_remote t_state slice).t_state ≡ some e)
        × (e.m_ttl <ℤ min_update_ttl host is_remote known)
  unfolding min_update_ttl
  merge_slice-own_overwritten k t_state slice known e h remote own p q same range = (
    rw (lookup-merge_slice json_ne host is_remote k t_state slice h, p, q) (ground (arith, same)),
    ground (
      arith,
      bytes_eq_iff known.m_author host,
      wrap_int64_of_IsInt64 (known.m_ttl +ℤ pos 1) range,
      +ℤ_parts known.m_ttl (pos 1),
      same,
    ),
  )

module _ {Json : Type 0} where
  -- Whether a node drops the received entry as a suspicious copy of its own.
  abbrev pub IsAccepted :
      Bytes → Bool → Option (StateEntry Json) → Option (StateEntry Json) → Type 0
  IsAccepted host is_remote (some known) (some e) = is_discarded host is_remote known e ≡ false
  IsAccepted host is_remote _ _ = Unit

  pub winner_round :
      (server client : Bytes) (remote_s remote_c : Bool) (s c : Option (StateEntry Json))
      → IsAccepted server remote_s s c
      → IsAccepted client remote_c c s
      → winner client remote_c c (winner server remote_s s c) ≡ winner server remote_s s c
  unfolding is_discarded
  winner_round server client rs rc none none a b = refl
  winner_round server client rs rc none (some y) a b = ground arith
  winner_round server client rs rc (some x) none a b = refl
  winner_round server client rs rc (some x) (some y) a b = ground arith

module _ {Json : Type 0} (json_ne : Json → Json → Bool) where
  -- A round of synchronization, where the server merges the client's state and the client merges
  -- what the server then holds, both states naming each key once: under a key where neither drops
  -- a remote copy of its own entry with a higher TTL, both hold the same entry afterwards.
  pub sync_round_agrees :
      (server client : Bytes) (remote_s remote_c : Bool) (s c : StateSlice Json) (k : Bytes)
      → IsMap s
      → IsMap c
      → IsAccepted server remote_s (lookup k s) (lookup k c)
      → IsAccepted client remote_c (lookup k c) (lookup k s)
      → let s' = (merge_slice json_ne server remote_s s c).t_state in
        lookup k (merge_slice json_ne client remote_c c s').t_state ≡ lookup k s'
  sync_round_agrees server client rs rc s c k hs hc a b =
      let s' = (merge_slice json_ne server rs s c).t_state in
      cc (
        lookup-merge_slice json_ne server rs k s c hc,
        lookup-merge_slice json_ne client rc k c s' (merge_slice-IsMap json_ne server rs s c hs),
        winner_round server client rs rc (lookup k s) (lookup k c) a b,
      )

  -- A server holds an entry of its own authorship and is synchronized from a remote address by a
  -- client that holds a copy of it with a higher TTL: after the round the server still holds its
  -- own entry and the client its copy.
  pub sync_round_locks_out :
      (server client : Bytes) (remote_c : Bool) (s c : StateSlice Json) (k : Bytes)
      (own copy : StateEntry Json)
      → IsMap s
      → IsMap c
      → lookup k s ≡ some own
      → lookup k c ≡ some copy
      → own.m_author ≡ server
      → own.m_ttl <ℤ copy.m_ttl
      → let s' = (merge_slice json_ne server true s c).t_state in
        (lookup k s' ≡ some own)
        × (lookup k (merge_slice json_ne client remote_c c s').t_state ≡ some copy)
  sync_round_locks_out server client rc s c k own copy hs hc p q author lt =
      let s' = (merge_slice json_ne server true s c).t_state in
      let kept : lookup k s' ≡ some own =
        rw (lookup-merge_slice json_ne server true k s c hc, p, q)
          (ground (arith, bytes_eq_iff own.m_author server)) in
      (
        kept,
        rw
            (
              lookup-merge_slice json_ne client rc k c s'
                  (merge_slice-IsMap json_ne server true s c hs),
              kept,
              q,
            )
            (ground arith),
      )
