-- ===== src/Prelude/Entries.antt =====
-- Predicates that hold of every entry of a map, and sums over the entries.
use mathlib.Core.Path.{◌≡◌, subst}
use mathlib.Core.Logic.{inl, inr}
use mathlib.Core.Option.{some}
use mathlib.Core.List.{List, [], ◌∷◌, ◌++◌}
use native.Mathlib.Omega.{arith}
use gip.Prelude.Tests.{Eq, ◌==◌, Bool-cases, Option-cases, eq_of_beq}
use gip.Prelude.Lists.{All}
use gip.Prelude.Dict.{Dict, lookup, insert, erase, get_or}

pub All-append {ℓ κ} :
    {T : Type ℓ} (P : T → Type κ) (front back : List T)
    → All P front
    → All P back
    → All P (front ++ back)
All-append P [] back h g = g
All-append P (t ∷ front) back h g = (h.0, All-append P front back h.1 g)

pub All-map {ℓ κ ι} :
    {A : Type ℓ} {P : A → Type κ} {Q : A → Type ι}
    → ((x : A) → P x → Q x)
    → (xs : List A) → All P xs
    → All Q xs
All-map f [] h = tt
All-map f (x ∷ xs) h = (f x h.0, All-map f xs h.1)

pub All-split {ℓ κ} :
    {A : Type ℓ} (P : A → Type κ) (xs ys : List A) → All P (xs ++ ys) → All P xs × All P ys
All-split P [] ys h = (tt, h)
All-split P (x ∷ xs) ys h = let r = All-split P xs ys h.1 in ((h.0, r.0), r.1)

module _ {ℓ κ ι} {K : Type ℓ} {V : Type κ} ⦃e : Eq K⦄ (P : K → V → Type ι) where
  abbrev pub Entries : Dict K V → Type ι
  Entries [] = Unit
  Entries ((k, v) ∷ m) = P k v × Entries m

  pub Entries-insert : (k : K) (v : V) (m : Dict K V) → P k v → Entries m → Entries (insert k v m)
  unfolding insert
  Entries-insert k v [] p h = (p, tt)
  Entries-insert k v ((j, w) ∷ m) p h = elim (Bool-cases (j == k)) [
    | inl hit ↦ rw hit (p, h.1)
    | inr miss ↦ rw miss (h.0, Entries-insert k v m p h.1)
  ]

  pub Entries-erase : (k : K) (m : Dict K V) → Entries m → Entries (erase k m)
  unfolding erase
  Entries-erase k [] h = tt
  Entries-erase k ((j, w) ∷ m) h = elim (Bool-cases (j == k)) [
    | inl hit ↦ rw hit (Entries-erase k m h.1)
    | inr miss ↦ rw miss (h.0, Entries-erase k m h.1)
  ]

  pub Entries-lookup : (k : K) (v : V) (m : Dict K V) → Entries m → lookup k m ≡ some v → P k v
  unfolding lookup
  Entries-lookup k v [] h q = cc
  Entries-lookup k v ((j, w) ∷ m) h q = elim (Bool-cases (j == k)) [
    | inl hit ↦ subst (λ x. P x v) (eq_of_beq j k hit) (subst (P j) (ground (arith, hit)) h.0)
    | inr miss ↦ Entries-lookup k v m h.1 (ground (arith, miss))
  ]

  pub Entries-get_or : (k : K) (d : V) (m : Dict K V) → P k d → Entries m → P k (get_or k d m)
  unfolding get_or
  Entries-get_or k d m p h = elim (Option-cases (lookup k m)) [
    | inl e ↦ rw (e, get_or) p
    | inr (v, e) ↦ rw (e, get_or) (Entries-lookup k v m h e)
  ]
