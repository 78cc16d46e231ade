-- ===== src/Cli/Attempts.antt =====
-- The synchronizations that a round of `SharedStateCli::peer` and the command `sync` of
-- app/shared_state_cli.cc make, whatever becomes of each.
use shared_state_async.Prelude.{
  ℕ, Bool, true, false, Option, none, some, List, [], ◌∷◌, ◌++◌, map, All, ◌≡◌, refl, sym, ◌∙◌, ap,
}
use shared_state_async.Prelude.Bytes.{Bytes}
use shared_state_async.Errors.{Error, Result, ok, fail, throw, crash}
use shared_state_async.State.{SharedState}
use shared_state_async.State.Types.{ConfigFile, load_registered_types}
use shared_state_async.Wire.Io.{Io}
use shared_state_async.Sync.{Host, sync_with_peer}
use shared_state_async.Cli.Peer.{should_sync_types, sync_peers, sync_types, sync_due, peer_round}

-- A result that the program notes before it goes on.
abbrev pub IsReported : Result Bool → Type 0
IsReported (ok b) = Unit
IsReported (fail e) = Unit
IsReported throw = ⊥
IsReported crash = ⊥

-- Each type with each peer, the peers of a type one after the other.
unfoldable pub with_each : {Addr : Type 0} → List Bytes → List Addr → List (Bytes × Addr)
with_each [] peers = []
with_each (name ∷ names) peers = map (λ peer. (name, peer)) peers ++ with_each names peers

-- What the calls that were no success report, an error or none.
unfoldable pub failures : List (Result Bool) → List (Option Error)
failures [] = []
failures (ok true ∷ rs) = failures rs
failures (ok false ∷ rs) = none ∷ failures rs
failures (fail e ∷ rs) = some e ∷ failures rs
failures (throw ∷ rs) = failures rs
failures (crash ∷ rs) = failures rs

unfoldable pub last_or : Option Error → List (Option Error) → Option Error
last_or retval [] = retval
last_or retval (e ∷ es) = last_or e es

All-append :
    (rs qs : List (Result Bool)) → All IsReported (rs ++ qs) → All IsReported rs × All IsReported qs
All-append [] qs h = (tt, h)
All-append (r ∷ rs) qs h = let (front, back) = All-append rs qs h.1 in ((h.0, front), back)

-- A loop that goes on after each result that is reported.
goes_on :
    {B : Type 0} (next thrown crashed : B) (r : Result Bool)
    → IsReported r
    → (elim r [ ok b ↦ next | fail e ↦ next | throw ↦ thrown | crash ↦ crashed ]) ≡ next
goes_on next thrown crashed (ok b) h = refl
goes_on next thrown crashed (fail e) h = refl
goes_on next thrown crashed throw h = absurd h
goes_on next thrown crashed crash h = absurd h

module _ {W Json Addr : Type 0} (host : Host W Json Addr) where
  -- Every synchronization of a list, with its result.
  unfoldable pub attempts :
      List (Bytes × Addr) → SharedState Json × W → List (Result Bool) × (SharedState Json × W)
  attempts [] v = ([], v)
  attempts (p ∷ ps) v =
      let t = sync_with_peer host p.0 p.1 v in let u = attempts ps t.1 in (t.0 ∷ u.0, u.1)

  attempts-append :
      (ps qs : List (Bytes × Addr)) (v : SharedState Json × W)
      → attempts (ps ++ qs) v ≡ (
        (attempts ps v).0 ++ (attempts qs (attempts ps v).1).0,
        (attempts qs (attempts ps v).1).1,
      )
  unfolding attempts
  attempts-append [] qs v = refl
  attempts-append (p ∷ ps) qs v =
      let t = sync_with_peer host p.0 p.1 v in
      ap (λ u. (t.0 ∷ u.0, u.1)) (attempts-append ps qs t.1)

  sync_peers-attempts :
      (name : Bytes) (peers : List Addr) (v : SharedState Json × W)
      → let t = attempts (map (λ peer. (name, peer)) peers) v in
        All IsReported t.0 → sync_peers host name peers v ≡ (ok tt, t.1)
  unfolding attempts sync_peers
  sync_peers-attempts name [] v h = refl
  sync_peers-attempts name (peer ∷ peers) v h =
      let t = sync_with_peer host name peer v in
      goes_on _ _ _ t.0 h.0 ∙ sync_peers-attempts name peers t.1 h.1

  sync_types-attempts :
      (names : List Bytes) (peers : List Addr) (v : SharedState Json × W)
      → let t = attempts (with_each names peers) v in
        All IsReported t.0 → sync_types host names peers v ≡ (ok tt, t.1)
  unfolding sync_types with_each attempts
  sync_types-attempts [] peers v h = refl
  sync_types-attempts (name ∷ names) peers v h =
      let ps = map (λ peer. (name, peer)) peers in
      let t = attempts ps v in
      let whole = attempts-append ps (with_each names peers) v in
      let parts = All-append t.0 _ (rw⁻¹ (ap (λ u. u.0) whole) h) in
      let first = sync_peers-attempts name peers v parts.0 in
      let rest = sync_types-attempts names peers t.1 parts.1 in
      let same : (sync_peers host name peers v).1 ≡ t.1 = ap (λ u. u.1) first in
      rw (sync_types, first, same) (rest ∙ ap (λ u. (ok tt, u.1)) (sym whole))

  -- Where the configuration loads, some type is due and the candidates are found, a round of the
  -- daemon attempts every due type with every candidate, in order: as long as no synchronization
  -- ends with an exception, none that fails keeps a later one from being attempted, and the round
  -- ends without an error in the state that all of them leave.
  pub peer_round-attempts :
      (config : ConfigFile) (now : ℕ) (candidates : Io W (List Addr)) (s s' : SharedState Json)
      (w w' : W) (b : Bool) (name : Bytes) (names : List Bytes) (peers : List Addr)
      → load_registered_types config s ≡ (ok b, s')
      → should_sync_types now s'.m_type_conf ≡ ok (name ∷ names)
      → candidates w ≡ (ok peers, w')
      → let t = attempts (with_each (name ∷ names) peers) (host.meanwhile w' s', w') in
        All IsReported t.0 → peer_round host config now candidates (s, w) ≡ (ok tt, t.1)
  unfolding peer_round
  peer_round-attempts config now candidates s s' w w' b name names peers loaded due found h =
      let state : (load_registered_types config s).1 ≡ s' = ap (λ u. u.1) loaded in
      let world : (candidates w).1 ≡ w' = ap (λ u. u.1) found in
      rw (peer_round, loaded, state, due, sync_due, found, world)
        (sync_types-attempts (name ∷ names) peers (host.meanwhile w' s', w') h)
