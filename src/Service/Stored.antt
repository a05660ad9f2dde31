-- ===== src/Service/Stored.antt =====
-- internal/storage/postgres/rule_repo.go over the requests of internal/api/http: the rows of the rules can be
-- scanned.
use maga.Base.{◌≡◌, ok, Result-cases, inl, inr, All, List, ℤ}
use maga.Domain.{Uuid, Rule}
use maga.Dsl.Json.Maps.{marshal_transforms}
use maga.Storage
use maga.Storage.Tables.{Db}
use maga.Storage.RuleRows.{All-insert_row, All-update_row, All-list_enabled_ordered}
use maga.Storage.Rules.Columns.{RuleRow, query_rules}
use maga.Storage.Rules.Columns.ReadBack.{
  IsStored, rule-IsStored, AreRows, rows_of, AreRows-rows_of, AllSteps-rows_of, query_rules-rows_of,
}
use maga.Dsl.Json.Maps.ReadBack.{AllSteps}
use maga.Service.{Outside, Reachable}
use maga.Service.Reached.{IsDecoded, reached_keeps}
use maga.Service.RuleTable.{rules_keep}

module _ (o : Outside) where
  same_priority :
      (x : Rule) (p : ℤ) → IsStored o.libs x → IsStored o.libs (record x { priority = p })
  same_priority x p h = record {
    column = h.column;
    written = h.written;
    read = h.read;
    steps = h.steps;
  }

  same_id : (x : Rule) (id : Uuid) → IsStored o.libs x → IsStored o.libs (record x { id = id })
  same_id x id h = record { column = h.column; written = h.written; read = h.read; steps = h.steps }

  create-IsStored :
      (r : Rule) (db : Db)
      → IsDecoded o r
      → All (IsStored o.libs) db.rules
      → All (IsStored o.libs) (Storage.Rules.create o.libs r db).1.rules
  unfolding Storage.Rules.create
  create-IsStored r db (raw, read) h =
      elim (Result-cases (marshal_transforms o.libs r.capture_transforms)) [
        | inr (e, failed) ↦ rw failed h
        | inl (column, written) ↦ rw written (
            All-insert_row (IsStored o.libs) same_priority same_id r db
              (rule-IsStored o.libs r raw read written) h)
      ]

  update-IsStored :
      (r : Rule) (db : Db)
      → IsDecoded o r
      → All (IsStored o.libs) db.rules
      → All (IsStored o.libs) (Storage.Rules.update o.libs r db).1.rules
  unfolding Storage.Rules.update
  update-IsStored r db (raw, read) h =
      elim (Result-cases (marshal_transforms o.libs r.capture_transforms)) [
        | inr (e, failed) ↦ rw failed h
        | inl (column, written) ↦ rw written (
            All-update_row (IsStored o.libs) same_priority same_id r db
              (rule-IsStored o.libs r raw read written) h)
      ]

  -- The transforms of the rules can be written as JSON, the rows with that JSON are scanned without an error and as
  -- the rules that they were, and each step is a registered operation with as many arguments as it takes.
  abbrev pub ReadBack : List Rule → Type 0
  ReadBack rules =
      (rows : List RuleRow) × AreRows o.libs rules rows
      × (query_rules o.libs rows ≡ ok rules)
      × All (λ (r : Rule). AllSteps o.libs r.capture_transforms) rules

  stored-ReadBack : (rules : List Rule) → All (IsStored o.libs) rules → ReadBack rules
  stored-ReadBack rules stored = (
    rows_of o.libs rules stored,
    AreRows-rows_of o.libs rules stored,
    query_rules-rows_of o.libs rules stored,
    AllSteps-rows_of o.libs rules stored,
  )

  -- Behind any sequence of calls, the rules of the table, enabled or not, and those of `ListEnabledOrdered`, have
  -- transforms that can be written as JSON. Their rows are scanned without an error, the transforms read back from
  -- the JSON as they were, and each of their steps is a registered operation with as many arguments as it takes,
  -- of one value each.
  pub reached_rules_stored :
      (db : Db)
      → Reachable o db
      → ReadBack db.rules × ReadBack (Storage.Rules.list_enabled_ordered db)
  reached_rules_stored db reached =
      let P = IsStored o.libs in
      let all =
        reached_keeps o (λ db. All P db.rules)
          (rules_keep o P same_priority same_id (λ r x v. create-IsStored r x)
            (λ r x v. update-IsStored r x))
          tt reached in
      (
        stored-ReadBack db.rules all,
        stored-ReadBack (Storage.Rules.list_enabled_ordered db) (All-list_enabled_ordered P db all),
      )
