-- ===== src/Storage/WellFormed/RuleStatements.antt =====
-- internal/storage/postgres/rule_repo.go: each statement keeps the tables well-formed.
use maga.Base.{
  ℕ, ◌+◌, ◌≡◌, refl, ◌∙◌, arith, ℤ, true, false, List, [], ◌∷◌, ◌++◌, ok, >>=-eq-ok, ◌>>=◌,
  Bool-cases, Result-cases, inl, inr,
}
use maga.Domain.{Uuid, Rule}
use maga.Storage.Tables.{Db, has_rule}
use maga.Go.Libs.{Libs}
use maga.Storage.Rules
use maga.Dsl.Json.Maps.{marshal_transforms}
use maga.Storage.RuleRows.{if_marshalled_keeps}
use maga.Storage.Rules.{
  allowed, taken, set_priority, pass, put_priority, placeholder, final_priority,
}
use maga.Storage.Rules.Reorder.{set_priority-eq-ok}
use maga.Storage.WellFormed.{IsWellFormed, unique_priorities, unique_ids}
use maga.Storage.WellFormed.References.{
  KeepsRules, element_references-keep, history_references-keep, has_rule-append,
  has_rule-replace_rows, has_rule-put_priority,
}
use maga.Storage.WellFormed.Removed.{element_references-remove_rule, history_references-remove_rule}
use maga.Storage.WellFormed.Priorities.{
  unique_priorities-append, unique_priorities-replace_rows, unique_priorities-put_priority,
  unique_priorities-remove_rows, unique_ids-append, unique_ids-replace_rows,
  unique_ids-put_priority, unique_ids-remove_rows,
}

allowed-taken :
    (id : Uuid) (p : ℤ) (rs : List Rule) → allowed id p rs ≡ true → taken id p rs ≡ false
allowed-taken id p rs h = ground arith

-- A table of rules in place of the one that was there.
with_rules :
    (db : Db) (n : ℕ) (rs : List Rule)
    → IsWellFormed db
    → KeepsRules db.rules rs
    → unique_priorities rs ≡ true
    → unique_ids n rs ≡ true
    → IsWellFormed (record db { next_id = n; rules = rs })
with_rules db n rs w keep priorities ids = record {
  elements_refer =
      element_references-keep db.clusters db.clusters db.rules rs db.elements (λ id h. h) keep
        w.elements_refer;
  history_refers =
      history_references-keep db.clusters db.clusters db.rules rs db.elements db.elements db.history
        (λ id h. h) keep (λ id h. h) w.history_refers;
  keys_unique = w.keys_unique;
  priorities_unique = priorities;
  ids_unique = ids;
}

insert_row-IsWellFormed :
    (rule : Rule) (db : Db) → IsWellFormed db → IsWellFormed (Rules.insert_row rule db).1
unfolding Rules.insert_row
insert_row-IsWellFormed rule db w = elim (Bool-cases (allowed db.next_id rule.priority db.rules)) [
  | inr refused ↦ rw refused w
  | inl free ↦
      let row = record rule { id = db.next_id } in
      rw free (
        with_rules db (db.next_id + 1) (db.rules ++ row ∷ []) w
          (λ id h. ground (arith, h, has_rule-append id db.rules (row ∷ [])))
          (unique_priorities-append db.rules row
            (allowed-taken db.next_id rule.priority db.rules free) w.priorities_unique)
          (unique_ids-append db.next_id db.rules row refl w.ids_unique))
]

update_row-IsWellFormed :
    (rule : Rule) (db : Db) → IsWellFormed db → IsWellFormed (Rules.update_row rule db).1
unfolding Rules.update_row
update_row-IsWellFormed rule db w = elim (Bool-cases (has_rule rule.id db.rules)) [
  | inr missing ↦ rw missing w
  | inl there ↦ elim (Bool-cases (allowed rule.id rule.priority db.rules)) [
    | inr refused ↦ rw (there, refused) w
    | inl free ↦
        rw (there, free)
          (with_rules db db.next_id (Rules.replace_rows rule db.rules) w
            (λ id h. has_rule-replace_rows id rule db.rules ∙ h)
            (unique_priorities-replace_rows rule db.rules
              (allowed-taken rule.id rule.priority db.rules free) w.priorities_unique)
            (unique_ids-replace_rows db.next_id rule db.rules w.ids_unique))
  ]
]

pub create_rule-IsWellFormed :
    (l : Libs) (rule : Rule) (db : Db) → IsWellFormed db → IsWellFormed (Rules.create l rule db).1
unfolding Rules.create
create_rule-IsWellFormed l rule db w =
    if_marshalled_keeps IsWellFormed (marshal_transforms l rule.capture_transforms)
      (Rules.insert_row rule) db w (insert_row-IsWellFormed rule db w)

pub update_rule-IsWellFormed :
    (l : Libs) (rule : Rule) (db : Db) → IsWellFormed db → IsWellFormed (Rules.update l rule db).1
unfolding Rules.update
update_rule-IsWellFormed l rule db w =
    if_marshalled_keeps IsWellFormed (marshal_transforms l rule.capture_transforms)
      (Rules.update_row rule) db w (update_row-IsWellFormed rule db w)

-- What a pass of `Reorder` keeps, from a table to the next.
abbrev PassKeeps : ℕ → List Rule → List Rule → Type 0
PassKeeps n rs rs' =
    KeepsRules rs rs'
    × (unique_priorities rs ≡ true → unique_priorities rs' ≡ true)
    × (unique_ids n rs ≡ true → unique_ids n rs' ≡ true)

has_rule-put :
    (k id : Uuid) (p : ℤ) (rs : List Rule) → has_rule id rs ≡ false → put_priority id p rs ≡ rs
unfolding has_rule put_priority
has_rule-put k id p [] n = refl
has_rule-put k id p (r ∷ rs) n = ground (arith, has_rule-put k id p rs)

set_priority-allowed :
    (id : Uuid) (p : ℤ) (rs : List Rule) {rs' : List Rule}
    → has_rule id rs ≡ true
    → set_priority id p rs ≡ ok rs'
    → allowed id p rs ≡ true
unfolding set_priority
set_priority-allowed id p rs there h = ground arith

put_keeps_unique :
    (id : Uuid) (p : ℤ) (rs : List Rule) {rs' : List Rule}
    → set_priority id p rs ≡ ok rs'
    → unique_priorities rs ≡ true
    → unique_priorities (put_priority id p rs) ≡ true
put_keeps_unique id p rs h u = elim (Bool-cases (has_rule id rs)) [
  | inr missing ↦ rw (has_rule-put id id p rs missing) u
  | inl there ↦
      unique_priorities-put_priority id p rs
        (allowed-taken id p rs (set_priority-allowed id p rs there h)) u
]

set_priority_keeps :
    (n : ℕ) (id : Uuid) (p : ℤ) (rs : List Rule) {rs' : List Rule}
    → set_priority id p rs ≡ ok rs'
    → PassKeeps n rs rs'
set_priority_keeps n id p rs {rs'} h =
    let e : rs' ≡ put_priority id p rs = set_priority-eq-ok id p rs h in
    rw e (
      (λ k found. has_rule-put_priority k id p rs ∙ found),
      put_keeps_unique id p rs h,
      (λ u. unique_ids-put_priority n id p rs u),
    )

pass_leaves_unique :
    (n : ℕ) (f : ℕ → ℤ) (i : ℕ) (ids : List Uuid) (rs : List Rule) {rs' : List Rule}
    → pass f i ids rs ≡ ok rs'
    → PassKeeps n rs rs'
unfolding pass
pass_leaves_unique n f i [] rs {rs'} h =
    let e : rs ≡ rs' = ground arith in rw (← e) ((λ k found. found), (λ u. u), (λ u. u))
pass_leaves_unique n f i (id ∷ ids) rs h =
    let (mid, first, rest) = >>=-eq-ok (set_priority id (f i) rs) (pass f (i + 1) ids) h in
    let (keep, priorities, unique) = set_priority_keeps n id (f i) rs first in
    let (keep', priorities', unique') = pass_leaves_unique n f (i + 1) ids mid rest in
    (
      (λ k found. keep' k (keep k found)),
      (λ u. priorities' (priorities u)),
      (λ u. unique' (unique u)),
    )

pub reorder-IsWellFormed :
    (ids : List Uuid) (db : Db) → IsWellFormed db → IsWellFormed (Rules.reorder ids db).1
unfolding Rules.reorder
reorder-IsWellFormed ids db w =
    elim (Result-cases (pass placeholder 0 ids db.rules >>= pass final_priority 0 ids)) [
      | inr (e, failed) ↦ rw failed w
      | inl (rs, done) ↦
          let (mid, first, second) =
            >>=-eq-ok (pass placeholder 0 ids db.rules) (pass final_priority 0 ids) done in
          let (keep, priorities, unique) =
            pass_leaves_unique db.next_id placeholder 0 ids db.rules first in
          let (keep', priorities', unique') =
            pass_leaves_unique db.next_id final_priority 0 ids mid second in
          rw done (
            with_rules db db.next_id rs w (λ k found. keep' k (keep k found))
              (priorities' (priorities w.priorities_unique)) (unique' (unique w.ids_unique)))
    ]

pub delete_rule-IsWellFormed :
    (id : Uuid) (db : Db) → IsWellFormed db → IsWellFormed (Rules.delete id db).1
unfolding Rules.delete
delete_rule-IsWellFormed id db w = elim (Bool-cases (has_rule id db.rules)) [
  | inr missing ↦ rw missing w
  | inl there ↦ elim (Bool-cases (Rules.elements_refer id db.elements)) [
    | inl used ↦ rw (there, used) w
    | inr unused ↦ elim (Bool-cases (Rules.history_refers id db.history)) [
      | inl used ↦ rw (there, unused, used) w
      | inr unused' ↦
          rw (there, unused, unused')
            (record {
              elements_refer =
                  element_references-remove_rule id db.clusters db.rules db.elements unused
                    w.elements_refer;
              history_refers =
                  history_references-remove_rule id db.clusters db.rules db.elements db.history
                    unused' w.history_refers;
              keys_unique = w.keys_unique;
              priorities_unique = unique_priorities-remove_rows id db.rules w.priorities_unique;
              ids_unique = unique_ids-remove_rows db.next_id id db.rules w.ids_unique;
            })
    ]
  ]
]
