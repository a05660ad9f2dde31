-- ===== src/Storage/Rules/Columns/ReadBack.antt =====
-- internal/storage/postgres/rule_repo.go: a rule is read back from the row that is written of it.
use maga.Base.{◌≡◌, refl, List, [], ◌∷◌, some, ok, All}
use maga.Go.Libs.{Libs}
use maga.Domain.{Rule}
use maga.Dsl.Json.Maps.{TransformsJson, marshal_transforms, unmarshal_transforms}
use maga.Dsl.Json.Maps.ReadBack.{AllSteps, transforms_read_back}
use maga.Storage.Rules.Columns.{RuleRow, row_of, scan_rule_row, query_rules}

-- The column of the rule can be written and is read back, and the steps of its transforms can be called.
pub record IsStored (l : Libs) (r : Rule) : Type 0 where
  pub column : TransformsJson
  pub written : marshal_transforms l r.capture_transforms ≡ ok column
  pub read : unmarshal_transforms l column ≡ ok r.capture_transforms
  pub steps : AllSteps l r.capture_transforms

pub rule-IsStored :
    (l : Libs) (r : Rule) (raw : TransformsJson) {column : TransformsJson}
    → unmarshal_transforms l raw ≡ ok r.capture_transforms
    → marshal_transforms l r.capture_transforms ≡ ok column
    → IsStored l r
rule-IsStored l r raw {column} read w =
    let (back, steps) = transforms_read_back l raw r.capture_transforms read w in
    record { column = column; written = w; read = back; steps = steps }

-- The row is scanned into the rule.
scan_rule_row-row_of :
    (l : Libs) (r : Rule) (stored : IsStored l r)
    → scan_rule_row l (some (row_of r stored.column)) ≡ ok r
unfolding scan_rule_row
scan_rule_row-row_of l r stored = rw stored.read refl

abbrev pub rows_of : (l : Libs) (rs : List Rule) → All (IsStored l) rs → List RuleRow
rows_of l [] h = []
rows_of l (r ∷ rs) (stored, h) = row_of r stored.column ∷ rows_of l rs h

pub query_rules-rows_of :
    (l : Libs) (rs : List Rule) (h : All (IsStored l) rs) → query_rules l (rows_of l rs h) ≡ ok rs
unfolding query_rules
query_rules-rows_of l [] h = refl
query_rules-rows_of l (r ∷ rs) (stored, h) =
    rw (scan_rule_row-row_of l r stored, query_rules-rows_of l rs h) refl

-- The rows are what is written of the rules.
abbrev pub AreRows : Libs → List Rule → List RuleRow → Type 0
AreRows l [] [] = Unit
AreRows l (r ∷ rs) (row ∷ rows) =
    (column : TransformsJson) × (marshal_transforms l r.capture_transforms ≡ ok column)
    × (row ≡ row_of r column)
    × AreRows l rs rows
AreRows l [] (row ∷ rows) = ⊥
AreRows l (r ∷ rs) [] = ⊥

pub AreRows-rows_of :
    (l : Libs) (rs : List Rule) (h : All (IsStored l) rs) → AreRows l rs (rows_of l rs h)
AreRows-rows_of l [] h = tt
AreRows-rows_of l (r ∷ rs) (stored, h) =
    (stored.column, stored.written, refl, AreRows-rows_of l rs h)

pub AllSteps-rows_of :
    (l : Libs) (rs : List Rule)
    → All (IsStored l) rs
    → All (λ (r : Rule). AllSteps l r.capture_transforms) rs
AllSteps-rows_of l [] h = tt
AllSteps-rows_of l (r ∷ rs) (stored, h) = (stored.steps, AllSteps-rows_of l rs h)
