-- ===== src/Storage/WellFormed/Priorities.antt =====
-- internal/storage/postgres/rule_repo.go: the priorities and the ids of the rules stay unique.
use maga.Base.{
  ℕ, ◌+◌, ◌≤◌, ◌≡◌, refl, arith, ℤ, pos, negsuc, true, false, ◌||◌, ◌&&◌, not, List, [], ◌∷◌, ◌++◌,
  ◌==◌,
}
use maga.Domain.{Uuid, Rule}
use maga.Storage.Tables.{has_rule}
use maga.Storage.Rules.{int_eq, taken, replace_rows, remove_rows, put_priority}
use maga.Storage.WellFormed.{unique_priorities, unique_ids}
use maga.Storage.WellFormed.References.{
  has_rule-append, has_rule-replace_rows, has_rule-put_priority,
}
use maga.Storage.WellFormed.Removed.{has_rule-remove_rows}

int_eq_comm : (p q : ℤ) → int_eq p q ≡ int_eq q p
int_eq_comm (pos m) (pos n) = ground arith
int_eq_comm (pos m) (negsuc n) = refl
int_eq_comm (negsuc m) (pos n) = refl
int_eq_comm (negsuc m) (negsuc n) = ground arith

taken-append :
    (k : Uuid) (p : ℤ) (rs : List Rule) (r : Rule)
    → taken k p (rs ++ r ∷ []) ≡ (taken k p rs || (not (r.id == k) && int_eq r.priority p))
unfolding taken
taken-append k p [] r = ground arith
taken-append k p (x ∷ rs) r = ground (arith, taken-append k p rs r)

taken-replace_rows :
    (k : Uuid) (p : ℤ) (rule : Rule) (rs : List Rule)
    → taken k p (replace_rows rule rs) ≡ true
    → (taken k p rs || (not (rule.id == k) && int_eq rule.priority p)) ≡ true
unfolding taken replace_rows
taken-replace_rows k p rule [] h = cc
taken-replace_rows k p rule (r ∷ rs) h = ground (arith, taken-replace_rows k p rule rs)

taken-put_priority :
    (k : Uuid) (q : ℤ) (id : Uuid) (p : ℤ) (rs : List Rule)
    → taken k q (put_priority id p rs) ≡ true
    → (taken k q rs || (not (id == k) && int_eq p q)) ≡ true
unfolding taken put_priority
taken-put_priority k q id p [] h = cc
taken-put_priority k q id p (r ∷ rs) h = ground (arith, taken-put_priority k q id p rs)

taken-remove_rows :
    (k : Uuid) (p : ℤ) (id : Uuid) (rs : List Rule)
    → taken k p (remove_rows id rs) ≡ true
    → taken k p rs ≡ true
unfolding taken remove_rows
taken-remove_rows k p id [] h = h
taken-remove_rows k p id (r ∷ rs) h = ground (arith, taken-remove_rows k p id rs)

pub unique_priorities-append :
    (rs : List Rule) (r : Rule)
    → taken r.id r.priority rs ≡ false
    → unique_priorities rs ≡ true
    → unique_priorities (rs ++ r ∷ []) ≡ true
unfolding unique_priorities taken
unique_priorities-append [] r n h = refl
unique_priorities-append (x ∷ rs) r n h = ground (
  arith,
  taken-append x.id x.priority rs r,
  int_eq_comm x.priority r.priority,
  unique_priorities-append rs r,
)

pub unique_priorities-replace_rows :
    (rule : Rule) (rs : List Rule)
    → taken rule.id rule.priority rs ≡ false
    → unique_priorities rs ≡ true
    → unique_priorities (replace_rows rule rs) ≡ true
unfolding unique_priorities taken replace_rows
unique_priorities-replace_rows rule [] n h = refl
unique_priorities-replace_rows rule (r ∷ rs) n h = ground (
  arith,
  taken-replace_rows r.id r.priority rule rs,
  taken-replace_rows rule.id rule.priority rule rs,
  int_eq_comm r.priority rule.priority,
  unique_priorities-replace_rows rule rs,
)

pub unique_priorities-put_priority :
    (id : Uuid) (p : ℤ) (rs : List Rule)
    → taken id p rs ≡ false
    → unique_priorities rs ≡ true
    → unique_priorities (put_priority id p rs) ≡ true
unfolding unique_priorities taken put_priority
unique_priorities-put_priority id p [] n h = refl
unique_priorities-put_priority id p (r ∷ rs) n h = ground (
  arith,
  taken-put_priority r.id r.priority id p rs,
  taken-put_priority r.id p id p rs,
  int_eq_comm r.priority p,
  unique_priorities-put_priority id p rs,
)

pub unique_priorities-remove_rows :
    (id : Uuid) (rs : List Rule)
    → unique_priorities rs ≡ true
    → unique_priorities (remove_rows id rs) ≡ true
unfolding unique_priorities remove_rows
unique_priorities-remove_rows id [] h = refl
unique_priorities-remove_rows id (r ∷ rs) h =
    ground (arith, taken-remove_rows r.id r.priority id rs, unique_priorities-remove_rows id rs)

pub unique_ids_mono :
    (n m : ℕ) (rs : List Rule) → n ≤ m → unique_ids n rs ≡ true → unique_ids m rs ≡ true
unfolding unique_ids
unique_ids_mono n m [] le h = refl
unique_ids_mono n m (r ∷ rs) le h = ground (arith, unique_ids_mono n m rs)

pub unique_ids-append :
    (n : ℕ) (rs : List Rule) (r : Rule)
    → r.id ≡ n
    → unique_ids n rs ≡ true
    → unique_ids (n + 1) (rs ++ r ∷ []) ≡ true
unfolding unique_ids has_rule
unique_ids-append n [] r e h = ground arith
unique_ids-append n (x ∷ rs) r e h =
    ground (arith, has_rule-append x.id rs (r ∷ []), unique_ids-append n rs r)

pub unique_ids-replace_rows :
    (n : ℕ) (rule : Rule) (rs : List Rule)
    → unique_ids n rs ≡ true
    → unique_ids n (replace_rows rule rs) ≡ true
unfolding unique_ids replace_rows
unique_ids-replace_rows n rule [] h = refl
unique_ids-replace_rows n rule (r ∷ rs) h = ground (
  arith,
  has_rule-replace_rows r.id rule rs,
  has_rule-replace_rows rule.id rule rs,
  unique_ids-replace_rows n rule rs,
)

pub unique_ids-put_priority :
    (n id : ℕ) (p : ℤ) (rs : List Rule)
    → unique_ids n rs ≡ true
    → unique_ids n (put_priority id p rs) ≡ true
unfolding unique_ids put_priority
unique_ids-put_priority n id p [] h = refl
unique_ids-put_priority n id p (r ∷ rs) h =
    ground (arith, has_rule-put_priority r.id id p rs, unique_ids-put_priority n id p rs)

pub unique_ids-remove_rows :
    (n id : ℕ) (rs : List Rule) → unique_ids n rs ≡ true → unique_ids n (remove_rows id rs) ≡ true
unfolding unique_ids remove_rows
unique_ids-remove_rows n id [] h = refl
unique_ids-remove_rows n id (r ∷ rs) h =
    ground (arith, has_rule-remove_rows r.id id rs, unique_ids-remove_rows n id rs)
