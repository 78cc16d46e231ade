-- ===== src/Prelude/Map.antt =====
-- `std::map`: entries in the order of their keys, over an interface for the keys.
use mathlib.Core.Path.{◌≡◌, refl}
use mathlib.Core.Logic.{◌↔◌, ◌≢◌, inl, inr}
use mathlib.Core.Bool.{Bool, true}
use mathlib.Core.Option
use mathlib.Core.Option.{Option, none, some}
use mathlib.Core.List.{List, [], ◌∷◌}
use native.Mathlib.Omega.{arith}
use Prim.Native.Nat.{ℕ}
use shared_state_async.Prelude.Tests.{
  if◌then◌else◌, Option-cases, Bool-cases, ◌==◌ as nat_beq, ==_iff, ltb,
}
use shared_state_async.Prelude.Lists.{length, All}

-- What a map asks of its keys: equality, and the order in which it keeps them.
pub record Key {ℓ} (K : Type ℓ) : Type ℓ where
  pub beq : K → K → Bool
  pub less : K → K → Bool
  pub beq_iff : (a b : K) → (beq a b ≡ true) ↔ (a ≡ b)

instance abbrev pub nat_key : Key ℕ
nat_key = record { beq = nat_beq; less = ltb; beq_iff = ==_iff }

abbrev pub Map {ℓ κ} : Type ℓ → Type κ → Type (ℓ ⊔ κ)
Map K V = List (K × V)

module _ {ℓ} {K : Type ℓ} ⦃key : Key K⦄ where
  pub beq_refl : (k : K) → key.beq k k ≡ true
  beq_refl k = (key.beq_iff k k).1 refl

module _ {ℓ κ} {K : Type ℓ} {V : Type κ} ⦃key : Key K⦄ where
  -- `find`, with `none` for `end()`
  unfoldable pub lookup : K → Map K V → Option V
  lookup k [] = none
  lookup k ((j, v) ∷ m) = if key.beq j k then some v else lookup k m

  -- A new entry goes before the first larger key.
  unfoldable pub place : K → V → Map K V → Map K V
  place k v [] = (k, v) ∷ []
  place k v ((j, w) ∷ m) =
      let rest = place k v m in if key.less k j then (k, v) ∷ (j, w) ∷ m else (j, w) ∷ rest

  unfoldable pub replace : K → V → Map K V → Map K V
  replace k v [] = []
  replace k v ((j, w) ∷ m) =
      let rest = replace k v m in if key.beq j k then (k, v) ∷ m else (j, w) ∷ rest

  -- `m[k] = v`
  unfoldable pub insert : K → V → Map K V → Map K V
  unfolding lookup place replace
  insert k v m = elim (lookup k m) [ none ↦ place k v m | some _ ↦ replace k v m ]

  -- `erase`
  unfoldable pub erase : K → Map K V → Map K V
  erase k [] = []
  erase k ((j, w) ∷ m) = let rest = erase k m in if key.beq j k then rest else (j, w) ∷ rest

  -- `erase_if` with the predicate negated: the entries that stay
  unfoldable pub keep_if : (K → V → Bool) → Map K V → Map K V
  keep_if p [] = []
  keep_if p ((j, w) ∷ m) = let rest = keep_if p m in if p j w then (j, w) ∷ rest else rest

  lookup-place :
      (k j : K) (v : V) (m : Map K V)
      → lookup k m ≡ none
      → lookup j (place k v m) ≡ (if key.beq k j then some v else lookup j m)
  unfolding lookup place
  lookup-place k j v [] h = refl
  lookup-place k j v ((i, w) ∷ m) h =
      ground (arith, key.beq_iff k j, key.beq_iff i k, key.beq_iff i j, lookup-place k j v m)

  lookup-replace :
      (k j : K) (v : V) (m : Map K V)
      → lookup k m ≢ none
      → lookup j (replace k v m) ≡ (if key.beq k j then some v else lookup j m)
  unfolding lookup replace
  lookup-replace k j v [] h = absurd (h refl)
  lookup-replace k j v ((i, w) ∷ m) h =
      ground (arith, key.beq_iff k j, key.beq_iff i k, key.beq_iff i j, lookup-replace k j v m)

  pub lookup-insert :
      (k j : K) (v : V) (m : Map K V)
      → lookup j (insert k v m) ≡ (if key.beq k j then some v else lookup j m)
  unfolding insert lookup
  lookup-insert k j v m = elim (Option-cases (lookup k m)) [
    | inl e ↦ rw (e, insert) (lookup-place k j v m e)
    | inr (w, e) ↦ rw (e, insert) (lookup-replace k j v m (λ p. cc))
  ]

  pub lookup-erase :
      (k j : K) (m : Map K V) → lookup j (erase k m) ≡ (if key.beq k j then none else lookup j m)
  unfolding lookup erase
  lookup-erase k j [] = ground arith
  lookup-erase k j ((i, w) ∷ m) =
      ground (arith, key.beq_iff k j, key.beq_iff i k, key.beq_iff i j, lookup-erase k j m)

  -- Every key stands once.
  abbrev pub IsMap : Map K V → Type κ
  IsMap [] = Unit
  IsMap ((k, v) ∷ m) = (lookup k m ≡ none) × IsMap m

  pub lookup-insert_self : (k : K) (v : V) (m : Map K V) → lookup k (insert k v m) ≡ some v
  lookup-insert_self k v m = rw (lookup-insert k k v m, beq_refl k)

  place-IsMap : (k : K) (v : V) (m : Map K V) → lookup k m ≡ none → IsMap m → IsMap (place k v m)
  unfolding lookup place
  place-IsMap k v [] e h = (refl, tt)
  place-IsMap k v ((j, w) ∷ m) e h =
      ground (arith, key.beq_iff j k, key.beq_iff k j, place-IsMap k v m, lookup-place k j v m)

  replace-IsMap :
      (k : K) (v : V) (m : Map K V) → lookup k m ≢ none → IsMap m → IsMap (replace k v m)
  unfolding lookup replace
  replace-IsMap k v [] e h = tt
  replace-IsMap k v ((j, w) ∷ m) e h =
      ground (arith, key.beq_iff j k, key.beq_iff k j, replace-IsMap k v m, lookup-replace k j v m)

  pub insert-IsMap : (k : K) (v : V) (m : Map K V) → IsMap m → IsMap (insert k v m)
  unfolding insert
  insert-IsMap k v m h = elim (Option-cases (lookup k m)) [
    | inl e ↦ rw (e, insert) (place-IsMap k v m e h)
    | inr (w, e) ↦ rw (e, insert) (replace-IsMap k v m (λ p. cc) h)
  ]

  pub erase-IsMap : (k : K) (m : Map K V) → IsMap m → IsMap (erase k m)
  unfolding erase
  erase-IsMap k [] h = tt
  erase-IsMap k ((j, w) ∷ m) h = ground (arith, erase-IsMap k m h.1, lookup-erase k j m)

  lookup-keep_if-none :
      (p : K → V → Bool) (j : K) (m : Map K V) → lookup j m ≡ none → lookup j (keep_if p m) ≡ none
  unfolding lookup keep_if
  lookup-keep_if-none p j [] h = refl
  lookup-keep_if-none p j ((i, w) ∷ m) h =
      ground (arith, key.beq_iff i j, lookup-keep_if-none p j m)

  pub keep_if-IsMap : (p : K → V → Bool) (m : Map K V) → IsMap m → IsMap (keep_if p m)
  unfolding keep_if
  keep_if-IsMap p [] h = tt
  keep_if-IsMap p ((j, w) ∷ m) h =
      ground (arith, keep_if-IsMap p m h.1, lookup-keep_if-none p j m h.0)

  -- The entry, if the predicate keeps it.
  abbrev pub kept : (K → V → Bool) → K → Option V → Option V
  kept p k none = none
  kept p k (some v) = if p k v then some v else none

  pub lookup-keep_if :
      (p : K → V → Bool) (j : K) (m : Map K V)
      → IsMap m
      → lookup j (keep_if p m) ≡ kept p j (lookup j m)
  unfolding lookup keep_if
  lookup-keep_if p j [] h = refl
  lookup-keep_if p j ((i, w) ∷ m) h = ground (arith, key.beq_iff i j, lookup-keep_if p j m h.1)

module _ {ℓ κ μ} {K : Type ℓ} {V : Type κ} {W : Type μ} ⦃key : Key K⦄ where
  -- A loop over the entries that rewrites each value in place.
  unfoldable pub map_values : (V → W) → Map K V → Map K W
  map_values f [] = []
  map_values f ((k, v) ∷ m) = (k, f v) ∷ map_values f m

  pub lookup-map_values :
      (f : V → W) (j : K) (m : Map K V) → lookup j (map_values f m) ≡ Option.map f (lookup j m)
  unfolding lookup map_values
  lookup-map_values f j [] = refl
  lookup-map_values f j ((i, v) ∷ m) = ground (arith, lookup-map_values f j m)

  pub map_values-IsMap : (f : V → W) (m : Map K V) → IsMap m → IsMap (map_values f m)
  unfolding map_values
  map_values-IsMap f [] h = tt
  map_values-IsMap f ((k, v) ∷ m) h =
      (rw (lookup-map_values f k m, h.0) refl, map_values-IsMap f m h.1)

  pub length-map_values : (f : V → W) (m : Map K V) → length (map_values f m) ≡ length m
  unfolding map_values
  length-map_values f [] = refl
  length-map_values f (e ∷ m) = omega (arith, length-map_values f m)

module _ {ℓ κ μ} {K : Type ℓ} {V : Type κ} ⦃key : Key K⦄ (P : K × V → Type μ) where
  place-All : (k : K) (v : V) (m : Map K V) → P (k, v) → All P m → All P (place k v m)
  unfolding place
  place-All k v [] p h = (p, tt)
  place-All k v ((j, w) ∷ m) p h = elim (Bool-cases (key.less k j)) [
    | inl e ↦ rw e (p, h)
    | inr e ↦ rw e (h.0, place-All k v m p h.1)
  ]

  replace-All : (k : K) (v : V) (m : Map K V) → P (k, v) → All P m → All P (replace k v m)
  unfolding replace
  replace-All k v [] p h = tt
  replace-All k v ((j, w) ∷ m) p h = elim (Bool-cases (key.beq j k)) [
    | inl e ↦ rw e (p, h.1)
    | inr e ↦ rw e (h.0, replace-All k v m p h.1)
  ]

  pub insert-All : (k : K) (v : V) (m : Map K V) → P (k, v) → All P m → All P (insert k v m)
  unfolding insert
  insert-All k v m p h = elim (Option-cases (lookup k m)) [
    | inl e ↦ rw (e, insert) (place-All k v m p h)
    | inr (w, e) ↦ rw (e, insert) (replace-All k v m p h)
  ]

  pub erase-All : (k : K) (m : Map K V) → All P m → All P (erase k m)
  unfolding erase
  erase-All k [] h = tt
  erase-All k ((j, w) ∷ m) h = elim (Bool-cases (key.beq j k)) [
    | inl e ↦ rw e (erase-All k m h.1)
    | inr e ↦ rw e (h.0, erase-All k m h.1)
  ]
