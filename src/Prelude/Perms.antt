-- ===== src/Prelude/Perms.antt =====
-- Lists up to the order of their elements, and the positions that a list has room for.
use mathlib.Core.Logic.Or
use mathlib.Core.List.Perm
use mathlib.Core.List.{
  List, ◌++◌, Perm, Subset, append_assoc, perm_append_comm, mem-append, mem-append_left,
  mem-append_right, Mem-prop,
}

module _ {ℓ} {A : Type ℓ} where
  pub swap_front : (xs ys zs : List A) → Perm (xs ++ (ys ++ zs)) (ys ++ (xs ++ zs))
  swap_front xs ys zs =
      rw (← append_assoc xs ys zs, ← append_assoc ys xs zs)
        (Perm.append_right zs (perm_append_comm xs ys))

  pub Subset-append_left :
      {xs ys : List A} (zs : List A) → Subset xs ys → Subset (zs ++ xs) (zs ++ ys)
  Subset-append_left zs h a m =
      Or.elim Mem-prop (mem-append.0 m) (mem-append_left _) (λ n. mem-append_right zs (h a n))

  pub Subset-append_right :
      {xs ys : List A} (zs : List A) → Subset xs ys → Subset (xs ++ zs) (ys ++ zs)
  Subset-append_right {ys} zs h a m =
      Or.elim Mem-prop (mem-append.0 m) (λ n. mem-append_left zs (h a n)) (mem-append_right ys)
