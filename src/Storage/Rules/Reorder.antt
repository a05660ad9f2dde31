-- ===== src/Storage/Rules/Reorder.antt =====
-- internal/storage/postgres/rule_repo.go: the priorities after `Reorder`, and the order of the list.
use maga.Base.{
  ℕ, zero, suc, ◌+◌, ◌*◌, ◌≡◌, refl, ap, ◌∙◌, arith, ℤ, pos, negsuc, Bool, true, false, ◌||◌, ◌&&◌,
  not, List, [], ◌∷◌, some, get_elem?, ◌==◌, Result, ok, err, >>=-eq-ok, ◌>>=◌, Result-cases,
  Bool-cases, inl, inr, All,
}
use maga.Domain.{Uuid, Rule, RepoError}
use maga.Storage.Tables.{Db, has_rule}
use maga.Storage.Rules.{
  int_leb, put_priority, set_priority, pass, placeholder, final_priority, commit, reorder,
  by_priority, insert_by_priority, enabled, list_enabled_ordered,
}

-- A row of the id, if it is one, has the priority.
abbrev pub HasPriority : Uuid → ℤ → Rule → Type 0
HasPriority id p r = (r.id == id) ≡ true → r.priority ≡ p

mem : Uuid → List Uuid → Bool
mem id [] = false
mem id (x ∷ xs) = x == id || mem id xs

unfoldable pub distinct : List Uuid → Bool
unfolding mem
distinct [] = true
distinct (x ∷ xs) = not (mem x xs) && distinct xs

put_sets : (id : Uuid) (p : ℤ) (rs : List Rule) → All (HasPriority id p) (put_priority id p rs)
unfolding put_priority
put_sets id p [] = tt
put_sets id p (r ∷ rs) = elim (Bool-cases (r.id == id)) [
  | inl same ↦ let more = put_sets id p rs in rw same ((λ h. refl), more)
  | inr differ ↦ let more = put_sets id p rs in rw differ ((λ h. cc), more)
]

put_keeps :
    (id k : Uuid) (p q : ℤ) (rs : List Rule)
    → (k == id) ≡ false
    → All (HasPriority id p) rs
    → All (HasPriority id p) (put_priority k q rs)
unfolding put_priority
put_keeps id k p q [] n h = tt
put_keeps id k p q (r ∷ rs) n (h, hs) = elim (Bool-cases (r.id == k)) [
  | inl same ↦ let more = put_keeps id k p q rs n hs in rw same ((λ e. ground arith), more)
  | inr differ ↦ let more = put_keeps id k p q rs n hs in rw differ (h, more)
]

pub set_priority-eq-ok :
    (id : Uuid) (p : ℤ) (rs : List Rule) {rs' : List Rule}
    → set_priority id p rs ≡ ok rs'
    → rs' ≡ put_priority id p rs
unfolding set_priority
set_priority-eq-ok id p rs h = ground arith

pass_keeps :
    (f : ℕ → ℤ) (i : ℕ) (ids : List Uuid) (rs : List Rule) {rs' : List Rule} (id : Uuid) (p : ℤ)
    → mem id ids ≡ false
    → pass f i ids rs ≡ ok rs'
    → All (HasPriority id p) rs
    → All (HasPriority id p) rs'
unfolding pass mem
pass_keeps f i [] rs {rs'} id p n h a = let e : rs ≡ rs' = ground arith in rw (← e) a
pass_keeps f i (k ∷ ids) rs id p n h a =
    let (mid, first, rest) = >>=-eq-ok (set_priority k (f i) rs) (pass f (i + 1) ids) h in
    pass_keeps f (i + 1) ids mid id p (ground arith) rest
      (rw (set_priority-eq-ok k (f i) rs first) (put_keeps id k p (f i) rs (ground arith) a))

pass_sets :
    (f : ℕ → ℤ) (i : ℕ) (ids : List Uuid) (rs : List Rule) {rs' : List Rule} (n : ℕ) (id : Uuid)
    → distinct ids ≡ true
    → pass f i ids rs ≡ ok rs'
    → get_elem? ids n ≡ some id
    → All (HasPriority id (f (i + n))) rs'
unfolding pass distinct
pass_sets f i [] rs n id d h e = cc
pass_sets f i (k ∷ ids) rs {rs'} zero id d h e =
    let (mid, first, rest) = >>=-eq-ok (set_priority k (f i) rs) (pass f (i + 1) ids) h in
    let same : k ≡ id = ground arith in
    let index : i + zero ≡ i = omega arith in
    pass_keeps f (i + 1) ids mid id (f (i + zero)) (rw (← same) (ground arith)) rest
      (rw (index, set_priority-eq-ok k (f i) rs first, same) (put_sets id (f i) rs))
pass_sets f i (k ∷ ids) rs {rs'} (suc n) id d h e =
    let (mid, first, rest) = >>=-eq-ok (set_priority k (f i) rs) (pass f (i + 1) ids) h in
    let index : i + suc n ≡ (i + 1) + n = omega arith in
    rw index (pass_sets f (i + 1) ids mid n id (ground arith) rest e)

-- If `Reorder` of distinct ids succeeds, the rule at each index of the list has ten times its position as
-- its priority.
pub reorder_sets :
    (ids : List Uuid) (db db' : Db) (n : ℕ) (id : Uuid)
    → distinct ids ≡ true
    → reorder ids db ≡ (ok tt, db')
    → get_elem? ids n ≡ some id
    → All (HasPriority id (pos ((n + 1) * 10))) db'.rules
unfolding reorder
reorder_sets ids db db' n id d h e =
    elim (Result-cases (pass placeholder 0 ids db.rules >>= pass final_priority 0 ids)) [
      | inr (x, failed) ↦ let bad : commit db (err x) ≡ (ok tt, db') = rw failed at h in cc
      | inl (rs, done) ↦
          let (mid, first, second) =
            >>=-eq-ok (pass placeholder 0 ids db.rules) (pass final_priority 0 ids) done in
          let go : commit db (ok rs) ≡ (ok tt, db') = rw done at h in
          let rows = ap (λ (x : Result RepoError Unit × Db). x.1.rules) go in
          let index : 0 + n ≡ n = omega arith in
          let sets = pass_sets final_priority 0 ids mid n id d second e in
          rw (← rows) (rw index at sets)
    ]

pub Above : ℤ → List Rule → Type 0
Above p [] = Unit
Above p (r ∷ rs) = int_leb p r.priority ≡ true

pub IsOrdered : List Rule → Type 0
unfolding Above
IsOrdered [] = Unit
IsOrdered (r ∷ rs) = Above r.priority rs × IsOrdered rs

int_leb-total : (p q : ℤ) → int_leb p q ≡ false → int_leb q p ≡ true
int_leb-total (pos m) (pos n) h = ground arith
int_leb-total (pos m) (negsuc n) h = refl
int_leb-total (negsuc m) (pos n) h = cc
int_leb-total (negsuc m) (negsuc n) h = ground arith

Above-insert :
    (p : ℤ) (r : Rule) (xs : List Rule)
    → int_leb p r.priority ≡ true
    → Above p xs
    → Above p (insert_by_priority r xs)
unfolding Above insert_by_priority
Above-insert p r [] h a = h
Above-insert p r (x ∷ xs) h a = elim (Bool-cases (int_leb r.priority x.priority)) [
  | inl le ↦ rw le h
  | inr gt ↦ rw gt a
]

insert-IsOrdered : (r : Rule) (xs : List Rule) → IsOrdered xs → IsOrdered (insert_by_priority r xs)
unfolding IsOrdered insert_by_priority Above
insert-IsOrdered r [] h = (tt, tt)
insert-IsOrdered r (x ∷ xs) (a, h) = elim (Bool-cases (int_leb r.priority x.priority)) [
  | inl le ↦ rw le (le, (a, h))
  | inr gt ↦
      let more = insert-IsOrdered r xs h in
      rw gt (Above-insert x.priority r xs (int_leb-total r.priority x.priority gt) a, more)
]

by_priority-IsOrdered : (rs : List Rule) → IsOrdered (by_priority rs)
unfolding by_priority IsOrdered
by_priority-IsOrdered [] = tt
by_priority-IsOrdered (r ∷ rs) = insert-IsOrdered r (by_priority rs) (by_priority-IsOrdered rs)

has_rule-insert :
    (id : Uuid) (r : Rule) (xs : List Rule)
    → has_rule id (insert_by_priority r xs) ≡ (r.id == id || has_rule id xs)
unfolding has_rule insert_by_priority
has_rule-insert id r [] = refl
has_rule-insert id r (x ∷ xs) = ground (arith, has_rule-insert id r xs)

-- Whether an enabled rule has the id.
pub has_enabled : Uuid → List Rule → Bool
has_enabled id [] = false
has_enabled id (r ∷ rs) = (r.is_enabled && r.id == id) || has_enabled id rs

has_rule-enabled : (id : Uuid) (rs : List Rule) → has_rule id (enabled rs) ≡ has_enabled id rs
unfolding has_rule enabled has_enabled
has_rule-enabled id [] = refl
has_rule-enabled id (r ∷ rs) = ground (arith, has_rule-enabled id rs)

has_rule-by_priority : (id : Uuid) (rs : List Rule) → has_rule id (by_priority rs) ≡ has_rule id rs
unfolding has_rule by_priority
has_rule-by_priority id [] = refl
has_rule-by_priority id (r ∷ rs) =
    ground (arith, has_rule-by_priority id rs, has_rule-insert id r (by_priority rs))

-- The list that `Evaluate` is given is in ascending order of the priorities and has the enabled rules.
pub list_enabled_ordered_lem :
    (db : Db)
    → IsOrdered (list_enabled_ordered db)
      × ((id : Uuid) → has_rule id (list_enabled_ordered db) ≡ has_enabled id db.rules)
unfolding list_enabled_ordered
list_enabled_ordered_lem db = (
  by_priority-IsOrdered (enabled db.rules),
  λ id. has_rule-by_priority id (enabled db.rules) ∙ has_rule-enabled id db.rules,
)
