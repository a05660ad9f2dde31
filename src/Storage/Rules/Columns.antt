-- ===== src/Storage/Rules/Columns.antt =====
-- internal/storage/postgres/rule_repo.go: the column `capture_transforms` of a rule, and the
-- scan of a row.
pub mod ReadBack
use maga.Base.{ℤ, Bool, List, [], ◌∷◌, Option, none, some, Str, codes, Dict, Result, ok, err, ◌>>=◌}
use maga.Go.Libs.{Libs}
use maga.Domain.{Uuid, Rule, RepoError, not_found, other}
use maga.Dsl.Types.{Pipeline}
use maga.Dsl.Json.{JsonError}
use maga.Dsl.Json.Maps.{TransformsJson, unmarshal_transforms}

-- A row of the table.
pub record RuleRow : Type 0 where
  pub id : Uuid
  pub name : Str
  pub description : Str
  pub pattern : Str
  pub capture_transforms : TransformsJson
  pub cluster_key_template : Str
  pub priority : ℤ
  pub is_enabled : Bool

-- What the statements write of a rule.
abbrev pub row_of : Rule → TransformsJson → RuleRow
row_of r c = record {
  id = r.id;
  name = r.name;
  description = r.description;
  pattern = r.pattern;
  capture_transforms = c;
  cluster_key_template = r.cluster_key_template;
  priority = r.priority;
  is_enabled = r.is_enabled;
}

abbrev or_unmarshal_error : RuleRow → Result JsonError (Dict Pipeline) → Result RepoError Rule
or_unmarshal_error row (err e) = err (other (codes "unmarshal capture transforms"))
or_unmarshal_error row (ok ts) = ok (record {
  id = row.id;
  name = row.name;
  description = row.description;
  pattern = row.pattern;
  capture_transforms = ts;
  cluster_key_template = row.cluster_key_template;
  priority = row.priority;
  is_enabled = row.is_enabled;
})

-- `scanRule` and `scanRuleRow`, where `none` is `pgx.ErrNoRows`.
unfoldable pub scan_rule_row : Libs → Option RuleRow → Result RepoError Rule
unfolding unmarshal_transforms
scan_rule_row l none = err not_found
scan_rule_row l (some row) = or_unmarshal_error row (unmarshal_transforms l row.capture_transforms)

-- The loop of `queryRules`, over the rows of the query.
unfoldable pub query_rules : Libs → List RuleRow → Result RepoError (List Rule)
unfolding scan_rule_row
query_rules l [] = ok []
query_rules l (row ∷ rows) = do
  rule ← scan_rule_row l (some row)
  out ← query_rules l rows
  ok (rule ∷ out)
