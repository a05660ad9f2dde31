-- ===== src/Storage/Rules.antt =====
-- internal/storage/postgres/rule_repo.go. A row of the table is kept as the rule that a scan makes of it.
pub mod Columns
pub mod Reorder
use maga.Base.{
  ℕ, ◌+◌, ◌*◌, ◌^◌, ℤ, pos, negsuc, Bool, true, false, ◌||◌, ◌&&◌, not, List, [], ◌∷◌, ◌++◌, Option,
  none, some, codes, ltb, leb, ◌==◌, if◌then◌else◌, Result, ok, err, ◌>>=◌,
}
use maga.Go.Libs.{Libs}
use maga.Dsl.Json.{JsonError}
use maga.Dsl.Json.Maps.{TransformsJson, marshal_transforms}
use maga.Domain.{Uuid, Rule, NetworkElement, RepoError, not_found, other}
use maga.Assignment.{AssignmentHistory, Action}
use maga.Storage.Tables.{Db, refers_to, has_rule}

abbrev pub int_eq : ℤ → ℤ → Bool
int_eq (pos m) (pos n) = m == n
int_eq (negsuc m) (negsuc n) = m == n
int_eq _ _ = false

abbrev pub int_leb : ℤ → ℤ → Bool
int_leb (pos m) (pos n) = leb m n
int_leb (pos m) (negsuc n) = false
int_leb (negsuc m) (pos n) = true
int_leb (negsuc m) (negsuc n) = leb n m

-- The column is a 32-bit `integer`.
abbrev pub fits : ℤ → Bool
fits (pos n) = ltb n (2 ^ 31)
fits (negsuc n) = ltb n (2 ^ 31)

-- `UNIQUE (priority)`: whether a row other than that of the id has the priority.
unfoldable pub taken : Uuid → ℤ → List Rule → Bool
taken id p [] = false
taken id p (r ∷ rs) = (not (r.id == id) && int_eq r.priority p) || taken id p rs

abbrev pub allowed : Uuid → ℤ → List Rule → Bool
allowed id p rs = fits p && not (taken id p rs)

-- The statements write the column `capture_transforms`; without it they are not sent.
abbrev pub if_marshalled :
    {A : Type 0} → Result JsonError TransformsJson → Action Db A → Action Db A
if_marshalled (err e) statement db = (err (other (codes "marshal capture transforms")), db)
if_marshalled (ok c) statement db = statement db

-- The row gets an id of its own.
unfoldable pub insert_row : Rule → Action Db Rule
unfolding taken
insert_row rule db =
    let row = record rule { id = db.next_id } in
    if allowed db.next_id rule.priority db.rules
    then (ok row, record db { next_id = db.next_id + 1; rules = db.rules ++ row ∷ [] })
    else (err (other (codes "create rule")), db)

-- `Create`
unfoldable pub create : Libs → Rule → Action Db Rule
unfolding insert_row marshal_transforms
create l rule db = if_marshalled (marshal_transforms l rule.capture_transforms) (insert_row rule) db

unfoldable pub rule_by_id : Uuid → List Rule → Option Rule
rule_by_id id [] = none
rule_by_id id (r ∷ rs) = if r.id == id then some r else rule_by_id id rs

abbrev pub or_not_found : Option Rule → Result RepoError Rule
or_not_found none = err not_found
or_not_found (some r) = ok r

-- `Get`
unfoldable pub get : Uuid → Db → Result RepoError Rule
unfolding rule_by_id
get id db = or_not_found (rule_by_id id db.rules)

unfoldable pub replace_rows : Rule → List Rule → List Rule
replace_rows rule [] = []
replace_rows rule (r ∷ rs) = (if r.id == rule.id then rule else r) ∷ replace_rows rule rs

unfoldable pub update_row : Rule → Action Db Rule
unfolding has_rule taken replace_rows
update_row rule db =
    if has_rule rule.id db.rules
    then (if allowed rule.id rule.priority db.rules
        then (ok rule, record db { rules = replace_rows rule db.rules })
        else (err (other (codes "scan rule row")), db))
    else (err not_found, db)

-- `Update`
unfoldable pub update : Libs → Rule → Action Db Rule
unfolding update_row marshal_transforms
update l rule db = if_marshalled (marshal_transforms l rule.capture_transforms) (update_row rule) db

unfoldable pub elements_refer : Uuid → List NetworkElement → Bool
elements_refer id [] = false
elements_refer id (e ∷ es) = refers_to id e.last_rule_id || elements_refer id es

unfoldable pub history_refers : Uuid → List AssignmentHistory → Bool
history_refers id [] = false
history_refers id (h ∷ hs) = refers_to id h.rule_id || history_refers id hs

unfoldable pub remove_rows : Uuid → List Rule → List Rule
remove_rows id [] = []
remove_rows id (r ∷ rs) = let rest = remove_rows id rs in if r.id == id then rest else r ∷ rest

-- `Delete`: the foreign keys of `network_elements` and of `assignment_history` may refuse it.
unfoldable pub delete : Uuid → Action Db Unit
unfolding has_rule elements_refer history_refers remove_rows
delete id db =
    if has_rule id db.rules
    then (if elements_refer id db.elements || history_refers id db.history
        then (err (other (codes "delete rule")), db)
        else (ok tt, record db { rules = remove_rows id db.rules }))
    else (err not_found, db)

-- `ORDER BY priority ASC`
unfoldable pub insert_by_priority : Rule → List Rule → List Rule
insert_by_priority r [] = r ∷ []
insert_by_priority r (x ∷ xs) =
    let rest = insert_by_priority r xs in
    if int_leb r.priority x.priority then r ∷ x ∷ xs else x ∷ rest

unfoldable pub by_priority : List Rule → List Rule
unfolding insert_by_priority
by_priority [] = []
by_priority (r ∷ rs) = insert_by_priority r (by_priority rs)

unfoldable pub enabled : List Rule → List Rule
enabled [] = []
enabled (r ∷ rs) = let rest = enabled rs in if r.is_enabled then r ∷ rest else rest

-- `ListEnabledOrdered`
unfoldable pub list_enabled_ordered : Db → List Rule
unfolding by_priority enabled
list_enabled_ordered db = by_priority (enabled db.rules)

-- `ListAllOrdered`
unfoldable pub list_all_ordered : Db → List Rule
unfolding by_priority
list_all_ordered db = by_priority db.rules

unfoldable pub put_priority : Uuid → ℤ → List Rule → List Rule
put_priority id p [] = []
put_priority id p (r ∷ rs) =
    (if r.id == id then record r { priority = p } else r) ∷ put_priority id p rs

-- `UPDATE rules SET priority = $2 WHERE id = $1`: an id with no row changes nothing.
unfoldable pub set_priority : Uuid → ℤ → List Rule → Result RepoError (List Rule)
unfolding has_rule taken put_priority
set_priority id p rs =
    if has_rule id rs && not (allowed id p rs)
    then err (other (codes "reorder rule"))
    else ok (put_priority id p rs)

-- A pass over the ids, from the index `i` on, with the priority of each index.
unfoldable pub pass : (ℕ → ℤ) → ℕ → List Uuid → List Rule → Result RepoError (List Rule)
unfolding set_priority
pass priority i [] rs = ok rs
pass priority i (id ∷ ids) rs = do
  rs' ← set_priority id (priority i) rs
  pass priority (i + 1) ids rs'

-- `-(i + 1)` and `(i + 1) * 10`
abbrev pub placeholder : ℕ → ℤ
placeholder i = negsuc i

abbrev pub final_priority : ℕ → ℤ
final_priority i = pos ((i + 1) * 10)

-- The transaction is rolled back on an error.
abbrev pub commit : Db → Result RepoError (List Rule) → Result RepoError Unit × Db
commit db (err e) = (err e, db)
commit db (ok rs) = (ok tt, record db { rules = rs })

-- `Reorder`
unfoldable pub reorder : List Uuid → Action Db Unit
unfolding pass
reorder ids db = commit db do rs ← pass placeholder 0 ids db.rules; pass final_priority 0 ids rs
