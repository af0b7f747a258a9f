-- ===== src/Prelude/Dict.antt =====
-- `std::unordered_map` as an association list. The order of the list stands for the iteration
-- order, which the C++ standard leaves unspecified: what is proved of a map holds for every list.
use mathlib.Core.Path.{◌≡◌, refl, ◌∙◌}
use mathlib.Core.Logic.{inl, inr}
use mathlib.Core.Bool.{Bool, true}
use mathlib.Core.Option.{Option, none, some}
use mathlib.Core.List.{List, [], ◌∷◌}
use native.Mathlib.Omega.{arith}
use gip.Prelude.Tests.{Eq, ◌==◌, if◌then◌else◌, has_value, Bool-cases}

abbrev pub Dict {ℓ κ} : Type ℓ → Type κ → Type (ℓ ⊔ κ)
Dict K V = List (K × V)

pub beq_refl {ℓ} : {K : Type ℓ} ⦃e : Eq K⦄ (k : K) → (k == k) ≡ true
beq_refl ⦃e⦄ k = (e.beq_iff k k).1 refl

module _ {ℓ κ} {K : Type ℓ} {V : Type κ} ⦃e : Eq K⦄ where
  -- `find`
  unfoldable pub lookup : K → Dict K V → Option V
  lookup key [] = none
  lookup key ((k, stored) ∷ rest) = if k == key then some stored else lookup key rest

  -- `erase(k)`
  unfoldable pub erase : K → Dict K V → Dict K V
  erase key [] = []
  erase key ((k, stored) ∷ rest) =
      let rest' = erase key rest in if k == key then rest' else (k, stored) ∷ rest'

  -- `m[k] = v`
  unfoldable pub insert : K → V → Dict K V → Dict K V
  insert key value [] = (key, value) ∷ []
  insert key value ((k, stored) ∷ rest) =
      if k == key then (key, value) ∷ rest else (k, stored) ∷ insert key value rest

  -- `m[k]` on a map whose values have the default `d`
  unfoldable pub get_or : K → V → Dict K V → V
  unfolding lookup
  get_or k d m = elim (lookup k m) [ none ↦ d | some v ↦ v ]

  -- `find(k) != end()`
  unfoldable pub contains : K → Dict K V → Bool
  unfolding lookup
  contains k m = has_value (lookup k m)

  pub lookup-insert :
      (k j : K) (v : V) (m : Dict K V)
      → lookup j (insert k v m) ≡ (if k == j then some v else lookup j m)
  unfolding lookup insert
  lookup-insert k j v [] = refl
  lookup-insert key other value ((k, stored) ∷ rest) =
      let later = lookup-insert key other value rest in
      ground (arith, e.beq_iff k other, e.beq_iff k key, e.beq_iff key other, later)

  pub lookup-erase :
      (k j : K) (m : Dict K V) → lookup j (erase k m) ≡ (if k == j then none else lookup j m)
  unfolding lookup erase
  lookup-erase k j [] = ground arith
  lookup-erase k j ((i, w) ∷ m) =
      ground (arith, e.beq_iff k j, e.beq_iff i k, e.beq_iff i j, lookup-erase k j m)

  pub lookup-insert_self : (k : K) (v : V) (m : Dict K V) → lookup k (insert k v m) ≡ some v
  lookup-insert_self k v m = ground (arith, lookup-insert k k v m, beq_refl k)

  pub lookup-erase_self : (k : K) (m : Dict K V) → lookup k (erase k m) ≡ none
  lookup-erase_self k m = ground (arith, lookup-erase k k m, beq_refl k)

  pub get_or-cons :
      (k j : K) (d v : V) (m : Dict K V)
      → get_or k d ((j, v) ∷ m) ≡ (if j == k then v else get_or k d m)
  unfolding get_or lookup
  get_or-cons k j d v m = ground arith

  -- What `m[k]` reads after `m[j] = v`.
  pub get_or-insert :
      (k j : K) (d v : V) (m : Dict K V)
      → get_or j d (insert k v m) ≡ (if k == j then v else get_or j d m)
  unfolding get_or
  get_or-insert k j d v m = ground (arith, lookup-insert k j v m)

  -- What `m[j]` reads after `f` has been applied to `m[k]` in place.
  pub get_or-update :
      (f : V → V) (k j : K) (d : V) (m : Dict K V)
      → get_or j d (insert k (f (get_or k d m)) m)
        ≡ (if k == j then f (get_or j d m) else get_or j d m)
  get_or-update f k j d m = elim (Bool-cases (k == j)) [
    | inl same ↦ get_or-insert k j d _ m ∙ rw (same, (e.beq_iff k j).0 same) refl
    | inr other ↦ get_or-insert k j d _ m ∙ rw other refl
  ]

pub ruleset dict_laws = (lookup-insert, lookup-erase)
