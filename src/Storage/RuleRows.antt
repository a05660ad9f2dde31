-- ===== src/Storage/RuleRows.antt =====
-- internal/storage/postgres/rule_repo.go: a predicate of the rules that neither the id nor the priority has a
-- part in, from statement to statement and in the list for `Evaluate`.
use maga.Base.{
  ℕ, ◌+◌, ◌≡◌, arith, ℤ, Bool, true, false, ◌||◌, List, [], ◌∷◌, ◌==◌, if◌then◌else◌, Result, ok,
  err, >>=-eq-ok, ◌>>=◌, Bool-cases, Result-cases, inl, inr, All, All-append,
}
use maga.Domain.{Uuid, Rule}
use maga.Storage.Tables.{Db, has_rule}
use maga.Go.Libs.{Libs}
use maga.Dsl.Json.{JsonError}
use maga.Assignment.{Action}
use maga.Dsl.Json.Maps.{TransformsJson, marshal_transforms}
use maga.Storage.Rules.{
  insert_row, update_row, if_marshalled, int_leb, create, update, delete, reorder, allowed, pass,
  set_priority, put_priority, placeholder, final_priority, replace_rows, remove_rows,
  elements_refer, history_refers, enabled, by_priority, insert_by_priority, list_enabled_ordered,
}
use maga.Storage.Rules.Reorder.{set_priority-eq-ok}

-- Where the column cannot be written, nothing changes.
pub if_marshalled_keeps :
    {A : Type 0} (I : Db → Type 0) (c : Result JsonError TransformsJson) (statement : Action Db A)
    (db : Db)
    → I db
    → I (statement db).1
    → I (if_marshalled c statement db).1
if_marshalled_keeps I (err e) statement db h k = h
if_marshalled_keeps I (ok c) statement db h k = k

module _ (P : Rule → Type 0) where
  All-insert_by_priority :
      (r : Rule) (xs : List Rule) → P r → All P xs → All P (insert_by_priority r xs)
  unfolding insert_by_priority
  All-insert_by_priority r [] p h = (p, tt)
  All-insert_by_priority r (x ∷ xs) p (q, h) = elim (Bool-cases (int_leb r.priority x.priority)) [
    | inl first ↦ rw first (p, (q, h))
    | inr later ↦ let more = All-insert_by_priority r xs p h in rw later (q, more)
  ]

  All-by_priority : (rs : List Rule) → All P rs → All P (by_priority rs)
  unfolding by_priority
  All-by_priority [] h = tt
  All-by_priority (r ∷ rs) (p, h) =
      All-insert_by_priority r (by_priority rs) p (All-by_priority rs h)

  All-kept :
      (b : Bool) (r : Rule) (rs : List Rule) → P r → All P rs → All P (if b then r ∷ rs else rs)
  All-kept true r rs p h = (p, h)
  All-kept false r rs p h = h

  All-enabled : (rs : List Rule) → All P rs → All P (enabled rs)
  unfolding enabled
  All-enabled [] h = tt
  All-enabled (r ∷ rs) (p, h) = All-kept r.is_enabled r (enabled rs) p (All-enabled rs h)

  pub All-list_enabled_ordered : (db : Db) → All P db.rules → All P (list_enabled_ordered db)
  unfolding list_enabled_ordered
  All-list_enabled_ordered db h = All-by_priority (enabled db.rules) (All-enabled db.rules h)

module _ (P : Rule → Type 0)
    (new_priority : (r : Rule) (p : ℤ) → P r → P (record r { priority = p }))
    (new_id : (r : Rule) (id : Uuid) → P r → P (record r { id = id })) where
  pub All-insert_row :
      (rule : Rule) (db : Db) → P rule → All P db.rules → All P (insert_row rule db).1.rules
  unfolding insert_row
  All-insert_row rule db new h = elim (Bool-cases (allowed db.next_id rule.priority db.rules)) [
    | inl free ↦ rw free (
        All-append P db.rules (record rule { id = db.next_id } ∷ []) h
          (new_id rule db.next_id new, tt))
    | inr refused ↦ rw refused h
  ]

  All-replace_rows :
      (rule : Rule) (rs : List Rule) → P rule → All P rs → All P (replace_rows rule rs)
  unfolding replace_rows
  All-replace_rows rule [] new h = tt
  All-replace_rows rule (r ∷ rs) new (p, h) = elim (Bool-cases (r.id == rule.id)) [
    | inl same ↦ let more = All-replace_rows rule rs new h in rw same (new, more)
    | inr differ ↦ let more = All-replace_rows rule rs new h in rw differ (p, more)
  ]

  pub All-update_row :
      (rule : Rule) (db : Db) → P rule → All P db.rules → All P (update_row rule db).1.rules
  unfolding update_row
  All-update_row rule db new h = elim (Bool-cases (has_rule rule.id db.rules)) [
    | inr missing ↦ rw missing h
    | inl there ↦ elim (Bool-cases (allowed rule.id rule.priority db.rules)) [
      | inl free ↦ rw (there, free) (All-replace_rows rule db.rules new h)
      | inr refused ↦ rw (there, refused) h
    ]
  ]

  pub All-create :
      (l : Libs) (rule : Rule) (db : Db)
      → P rule
      → All P db.rules
      → All P (create l rule db).1.rules
  unfolding create
  All-create l rule db new h =
      if_marshalled_keeps (λ db. All P db.rules) (marshal_transforms l rule.capture_transforms)
        (insert_row rule) db h (All-insert_row rule db new h)

  pub All-update :
      (l : Libs) (rule : Rule) (db : Db)
      → P rule
      → All P db.rules
      → All P (update l rule db).1.rules
  unfolding update
  All-update l rule db new h =
      if_marshalled_keeps (λ db. All P db.rules) (marshal_transforms l rule.capture_transforms)
        (update_row rule) db h (All-update_row rule db new h)

  All-put_priority : (id : Uuid) (p : ℤ) (rs : List Rule) → All P rs → All P (put_priority id p rs)
  unfolding put_priority
  All-put_priority id p [] h = tt
  All-put_priority id p (r ∷ rs) (q, h) = elim (Bool-cases (r.id == id)) [
    | inl same ↦ let more = All-put_priority id p rs h in rw same (new_priority r p q, more)
    | inr differ ↦ let more = All-put_priority id p rs h in rw differ (q, more)
  ]

  All-pass :
      (f : ℕ → ℤ) (i : ℕ) (ids : List Uuid) (rs : List Rule) {rs' : List Rule}
      → pass f i ids rs ≡ ok rs'
      → All P rs
      → All P rs'
  unfolding pass
  All-pass f i [] rs {rs'} e h = let same : rs ≡ rs' = ground arith in rw (← same) h
  All-pass f i (id ∷ ids) rs e h =
      let (mid, first, rest) = >>=-eq-ok (set_priority id (f i) rs) (pass f (i + 1) ids) e in
      All-pass f (i + 1) ids mid rest
        (rw (set_priority-eq-ok id (f i) rs first) (All-put_priority id (f i) rs h))

  pub All-reorder : (ids : List Uuid) (db : Db) → All P db.rules → All P (reorder ids db).1.rules
  unfolding reorder
  All-reorder ids db h =
      elim (Result-cases (pass placeholder 0 ids db.rules >>= pass final_priority 0 ids)) [
        | inr (e, failed) ↦ rw failed h
        | inl (rs, done) ↦
            let (mid, first, second) =
              >>=-eq-ok (pass placeholder 0 ids db.rules) (pass final_priority 0 ids) done in
            rw done (
              All-pass final_priority 0 ids mid second
                (All-pass placeholder 0 ids db.rules first h))
      ]

  All-remove_rows : (id : Uuid) (rs : List Rule) → All P rs → All P (remove_rows id rs)
  unfolding remove_rows
  All-remove_rows id [] h = tt
  All-remove_rows id (r ∷ rs) (p, h) = elim (Bool-cases (r.id == id)) [
    | inl same ↦ rw same (All-remove_rows id rs h)
    | inr differ ↦ let more = All-remove_rows id rs h in rw differ (p, more)
  ]

  pub All-delete : (id : Uuid) (db : Db) → All P db.rules → All P (delete id db).1.rules
  unfolding delete
  All-delete id db h = elim (Bool-cases (has_rule id db.rules)) [
    | inr missing ↦ rw missing h
    | inl there ↦
        elim (Bool-cases (elements_refer id db.elements || history_refers id db.history)) [
          | inl used ↦ rw (there, used) h
          | inr unused ↦ rw (there, unused) (All-remove_rows id db.rules h)
        ]
  ]
