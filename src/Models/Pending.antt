-- ===== src/Models/Pending.antt =====
-- How a waiting set of tasks changes when one task is revoked.
use mathlib.Core.List.{append_assoc, Perm, perm_middle}
use gip.Prelude.{String, ◌≡◌, refl, ap, sym, subst, ◌∙◌, ◌≢◌, List, [], ◌∷◌, ◌++◌, All}
use gip.Prelude.Entries.{All-append, All-split}
use gip.Models.Tasks.{Task, request_id}

-- `t` is the first task of `q` with the request id, and `q'` is `q` without it.
pub record RemovesFirst (id : String) (q q' : List Task) (t : Task) : Type 0 where
  pub before : List Task
  pub after : List Task
  pub found : q ≡ before ++ t ∷ after
  pub left : q' ≡ before ++ after
  pub same_id : request_id t ≡ id
  pub first : All (λ u. request_id u ≢ id) before

abbrev pub Absent : String → List Task → Type 0
Absent id q = All (λ u. request_id u ≢ id) q

pub RemovesFirst-cons :
    {id : String} {q q' : List Task} {t : Task} (u : Task)
    → request_id u ≢ id
    → RemovesFirst id q q' t
    → RemovesFirst id (u ∷ q) (u ∷ q') t
RemovesFirst-cons u h r = record {
  before = u ∷ r.before;
  after = r.after;
  found = ap (◌∷◌ u) r.found;
  left = ap (◌∷◌ u) r.left;
  same_id = r.same_id;
  first = (h, r.first);
}

pub RemovesFirst-head :
    (id : String) (t : Task) (q : List Task) → request_id t ≡ id → RemovesFirst id (t ∷ q) q t
RemovesFirst-head id t q e = record {
  before = [];
  after = q;
  found = refl;
  left = refl;
  same_id = e;
  first = tt;
}

pub RemovesFirst-append :
    {id : String} {q q' : List Task} {t : Task} (ys : List Task)
    → RemovesFirst id q q' t
    → RemovesFirst id (q ++ ys) (q' ++ ys) t
RemovesFirst-append {t} ys r = record {
  before = r.before;
  after = r.after ++ ys;
  found = ap (λ l. l ++ ys) r.found ∙ append_assoc r.before (t ∷ r.after) ys;
  left = ap (λ l. l ++ ys) r.left ∙ append_assoc r.before r.after ys;
  same_id = r.same_id;
  first = r.first;
}

pub RemovesFirst-prepend :
    {id : String} {q q' : List Task} {t : Task} (xs : List Task)
    → Absent id xs
    → RemovesFirst id q q' t
    → RemovesFirst id (xs ++ q) (xs ++ q') t
RemovesFirst-prepend {id} {t} xs absent r = record {
  before = xs ++ r.before;
  after = r.after;
  found = ap (◌++◌ xs) r.found ∙ sym (append_assoc xs r.before (t ∷ r.after));
  left = ap (◌++◌ xs) r.left ∙ sym (append_assoc xs r.before r.after);
  same_id = r.same_id;
  first = All-append (λ u. request_id u ≢ id) xs r.before absent r.first;
}

pub RemovesFirst-Absent :
    {id : String} {q q' : List Task} {t : Task} → RemovesFirst id q q' t → Absent id q → ⊥
RemovesFirst-Absent {id} {q} {t} r absent =
    let split =
      All-split (λ u. request_id u ≢ id) r.before (t ∷ r.after)
        (subst (Absent id) r.found absent) in
    split.1.0 r.same_id

pub RemovesFirst-perm :
    {id : String} {q q' : List Task} {t : Task} → RemovesFirst id q q' t → Perm q (t ∷ q')
RemovesFirst-perm r = rw (r.found, r.left) (perm_middle r.before r.after)
