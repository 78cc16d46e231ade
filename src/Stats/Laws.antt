-- ===== src/Stats/Laws.antt =====
-- Which records `collectStat` of src/sharedstate.cc keeps.
use mathlib.Core.Option
use shared_state_async.Prelude.{
  ℕ, zero, suc, ◌+◌, ◌-◌, ◌^◌, ◌≤◌, ◌<◌, Bool, true, false, Option, none, some, List, [], ◌∷◌, ◌++◌,
  length, drop, All, ltb, if◌then◌else◌, ◌≡◌, refl, arith, ap, ◌∙◌, inl, inr, Bool-cases,
  Option-cases, length-append, length-drop,
}
use shared_state_async.Prelude.Map.{Map, lookup, lookup-insert, lookup-map_values}
use shared_state_async.Prelude.Bytes.{Bytes, bytes_eq, bytes_key, bytes_eq_iff}
use shared_state_async.Errors.{io_error}
use shared_state_async.Wire.Message.{NetworkStats}
use shared_state_async.Stats.{
  net_stat_max_records, net_stat_max_age, StatFile, skip, drop_old, prune, push_back, read_stats,
  collect_stat,
}

drop-append_within :
    {A : Type 0} (n : ℕ) (xs ys : List A) → n ≤ length xs → drop n (xs ++ ys) ≡ drop n xs ++ ys
drop-append_within zero xs ys h = refl
drop-append_within (suc n) [] ys h = absurd (omega arith)
drop-append_within (suc n) (x ∷ xs) ys h = drop-append_within n xs ys (omega arith)

-- No wrap disturbs the number of records in excess.
skip_lem : (size : ℕ) → size < 2 ^ 31 → skip size ≡ size - net_stat_max_records
unfolding skip
skip_lem size h = ground arith

module _ {Addr : Type 0} where
  abbrev pub IsOld : ℕ → NetworkStats Addr → Type 0
  IsOld now stat = stat.m_ts + net_stat_max_age < now

  -- The first record, where there is one, is not too old.
  abbrev pub StartsFresh : ℕ → List (NetworkStats Addr) → Type 0
  StartsFresh now [] = Unit
  StartsFresh now (stat ∷ _) = now ≤ stat.m_ts + net_stat_max_age

  drop_old_lem :
      (now : ℕ) (xs : List (NetworkStats Addr))
      → (old : List (NetworkStats Addr)) × (xs ≡ old ++ drop_old now xs)
        × All (IsOld now) old
        × StartsFresh now (drop_old now xs)
  unfolding drop_old
  drop_old_lem now [] = ([], refl, tt, tt)
  drop_old_lem now (x ∷ xs) = elim (Bool-cases (ltb (x.m_ts + net_stat_max_age) now)) [
    | inl old ↦
        let (o, e, a, f) = drop_old_lem now xs in
        rw (drop_old, old) (x ∷ o, ap (◌∷◌ x) e, (ground arith, a), f)
    | inr fresh ↦ rw (drop_old, fresh) ([], refl, tt, ground arith)
  ]

  length-drop_old : (now : ℕ) (xs : List (NetworkStats Addr)) → length (drop_old now xs) ≤ length xs
  unfolding drop_old
  length-drop_old now [] = omega arith
  length-drop_old now (x ∷ xs) = ground (arith, length-drop_old now xs)

  -- At most the last ten records are kept, and of these the old ones at the front are dropped: only
  -- records over thirty minutes of age, up to the first that is not.
  abbrev pub IsPruned : ℕ → List (NetworkStats Addr) → List (NetworkStats Addr) → Type 0
  IsPruned now xs ys =
      (length ys ≤ net_stat_max_records)
      × ((old : List (NetworkStats Addr)) × (drop (length xs - net_stat_max_records) xs ≡ old ++ ys)
          × All (IsOld now) old
          × StartsFresh now ys)

  -- What pruning does to fewer than 2 ^ 31 records.
  pub prune_lem :
      (now : ℕ) (xs : List (NetworkStats Addr))
      → length xs < 2 ^ 31
      → IsPruned now xs (prune now xs)
  unfolding prune
  prune_lem now xs h = rw (skip_lem (length xs) h) (
    omega (
      arith,
      length-drop_old now (drop (length xs - net_stat_max_records) xs),
      length-drop (length xs - net_stat_max_records) xs,
    ),
    drop_old_lem now (drop (length xs - net_stat_max_records) xs),
  )

  drop_old-last :
      (now : ℕ) (xs : List (NetworkStats Addr)) (stat : NetworkStats Addr)
      → stat.m_ts ≡ now
      → (ys : List (NetworkStats Addr)) × (drop_old now (xs ++ (stat ∷ [])) ≡ ys ++ (stat ∷ []))
  unfolding drop_old
  drop_old-last now [] stat e =
      let fresh : ltb (stat.m_ts + net_stat_max_age) now ≡ false = ground arith in
      ([], rw fresh refl)
  drop_old-last now (x ∷ xs) stat e = elim (Bool-cases (ltb (x.m_ts + net_stat_max_age) now)) [
    | inl old ↦ rw (drop_old, old) (drop_old-last now xs stat e)
    | inr fresh ↦ rw (drop_old, fresh) (x ∷ xs, refl)
  ]

  -- A new record at the end, with the present time, always stays, as the last one, where there are
  -- fewer than 2 ^ 31 - 1 before it.
  pub prune-last :
      (now : ℕ) (xs : List (NetworkStats Addr)) (stat : NetworkStats Addr)
      → length xs < 2 ^ 31 - 1
      → stat.m_ts ≡ now
      → (ys : List (NetworkStats Addr)) × (prune now (xs ++ (stat ∷ [])) ≡ ys ++ (stat ∷ []))
  unfolding prune
  prune-last now xs stat h e =
      let n : length (xs ++ (stat ∷ [])) ≡ length xs + 1 = length-append xs (stat ∷ []) in
      let few : skip (length (xs ++ (stat ∷ []))) ≡ length xs + 1 - net_stat_max_records =
        ap skip n ∙ skip_lem (length xs + 1) (omega (arith, h)) in
      rw
        (
          few,
          drop-append_within (length xs + 1 - net_stat_max_records) xs (stat ∷ []) (omega arith),
        )
        (drop_old-last now (drop (length xs + 1 - net_stat_max_records) xs) stat e)

  -- The records of a peer, with the new one at the end if it is that peer's.
  abbrev pub pushed :
      Bool
      → NetworkStats Addr
      → Option (List (NetworkStats Addr))
      → Option (List (NetworkStats Addr))
  pushed true stat none = some (stat ∷ [])
  pushed true stat (some xs) = some (xs ++ (stat ∷ []))
  pushed false stat o = o

  lookup-push_back :
      (k peer : Bytes) (stat : NetworkStats Addr) (m : Map Bytes (List (NetworkStats Addr)))
      → lookup k (push_back peer stat m) ≡ pushed (bytes_eq peer k) stat (lookup k m)
  unfolding push_back
  lookup-push_back k peer stat m = elim (Option-cases (lookup peer m)) [
    | inl e ↦ ground (arith, e, bytes_eq_iff peer k, lookup-insert peer k (stat ∷ []) m)
    | inr (xs, e) ↦
        ground (arith, e, bytes_eq_iff peer k, lookup-insert peer k (xs ++ (stat ∷ [])) m)
  ]

  -- A peer has pruned records where it had any, and no others do.
  abbrev pub ArePruned :
      ℕ → Option (List (NetworkStats Addr)) → Option (List (NetworkStats Addr)) → Type 0
  ArePruned now none none = Unit
  ArePruned now (some xs) (some ys) = IsPruned now xs ys
  ArePruned now none (some ys) = ⊥
  ArePruned now (some xs) none = ⊥

  abbrev pub AreFew : Option (List (NetworkStats Addr)) → Type 0
  AreFew none = Unit
  AreFew (some xs) = length xs < 2 ^ 31 - 1

  -- The records of a peer in the file, before and after, where it opens for writing and where not.
  abbrev pub IsUpdate :
      Bool
      → ℕ
      → Option (List (NetworkStats Addr))
      → Option (List (NetworkStats Addr))
      → Option (List (NetworkStats Addr))
      → Type 0
  IsUpdate true now before completed after = ArePruned now completed after
  IsUpdate false now before completed after = after ≡ before

  few-pushed :
      (own : Bool) (stat : NetworkStats Addr) (o : Option (List (NetworkStats Addr))) (now : ℕ)
      → AreFew o
      → ArePruned now (pushed own stat o) (Option.map (prune now) (pushed own stat o))
  few-pushed true stat none now h = prune_lem now (stat ∷ []) (omega arith)
  few-pushed true stat (some xs) now h =
      prune_lem now (xs ++ (stat ∷ [])) (omega (arith, h, length-append xs (stat ∷ [])))
  few-pushed false stat none now h = tt
  few-pushed false stat (some xs) now h = prune_lem now xs (omega (arith, h))

  -- The call completes the record. Where the file opens for writing and the serializer succeeds,
  -- there is no error, and the file then holds, for every peer, with the completed record added at
  -- the end to those of its own peer, at most the last ten, without those at the front that are
  -- over thirty minutes old; a file that does not open for reading counts as empty. Where the file
  -- does not open for writing `io_error` is reported, and it stays as it was. No peer has 2 ^ 31 - 1
  -- records before.
  pub collect_stat_lem :
      (ipv4_to_ipv6 : Addr → Addr) (ip_to_string : Addr → Bytes) (now : ℕ) (is_open : Bool)
      (net_stat : NetworkStats Addr) (file : StatFile Addr)
      → ((k : Bytes) → AreFew (lookup k (read_stats file)))
      → let stat : NetworkStats Addr = record net_stat {
        m_peer = ipv4_to_ipv6 net_stat.m_peer;
        m_ts = now;
      } in
        let (r, file') = collect_stat ipv4_to_ipv6 ip_to_string now is_open true net_stat file in
        (r ≡ ((if is_open then none else some io_error), stat))
        × ((k : Bytes)
            → IsUpdate is_open now
                (lookup k (read_stats file))
                (pushed (bytes_eq (ip_to_string stat.m_peer) k) stat (lookup k (read_stats file)))
                (lookup k (read_stats file')))
  unfolding collect_stat
  collect_stat_lem v6 str now true net_stat file few =
      let stat : NetworkStats Addr = record net_stat { m_peer = v6 net_stat.m_peer; m_ts = now } in
      (
        refl,
        λ k.
            rw
              (
                lookup-map_values (prune now) k
                    (push_back (str stat.m_peer) stat (read_stats file)),
                lookup-push_back k (str stat.m_peer) stat (read_stats file),
              )
              (few-pushed (bytes_eq (str stat.m_peer) k) stat (lookup k (read_stats file)) now
                (few k)),
      )
  collect_stat_lem v6 str now false net_stat file few = (refl, λ k. refl)
