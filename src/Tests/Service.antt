-- ===== src/Tests/Service.antt =====
-- cmd/apiserver: applied theorems.
use maga.Base.{
  map, ◌≡◌, ◌⊎◌, refl, true, pos, length, is_some, str_mem, lookup, insert, Option, List, [], ◌∷◌,
  ◌++◌, none, some, Str, codes, if◌then◌else◌, All, ok,
}
use maga.Domain.{other, Uuid, Rule, Cluster, manual_redistribute_single}
use maga.Dsl.Pipeline.{apply, apply_op}
use maga.Dsl.Ops.Registry.{registry}
use maga.Go.Strings.{has_prefix}
use maga.Assignment.{Request, assign}
use maga.RuleEngine.Evaluate.{MatchResult, evaluate, no_match}
use maga.RuleEngine.Evaluate.Selection.{AppliesNot}
use maga.RuleEngine.Template.{extract_template_tokens, render_template}
use maga.RuleEngine.Validate.{validate_rule}
use maga.Assignment.{AssignmentHistory}
use maga.Storage
use maga.Storage.Tables.{Db}
use maga.Storage.Clusters.{new_cluster}
use maga.Storage.Assigning.{postgres}
use maga.Storage.WellFormed.{IsWellFormed}
use maga.Storage.ClusterNames.{clusters_refine, names_of, is_ok, id_or, bind_key, free_id}
use maga.Api
use maga.Api.Dto.{RuleJson, RuleTestRequest, RuleTestResponse}
use maga.Api.Respond.{json, internal}
use maga.Service.{
  create_rule, upsert_discovered, step, empty_tables, Reachable, start, after, postgres_rules,
  postgres_elements,
}
use maga.Service.Reached.{reached-IsWellFormed}
use maga.Service.Stored.{ReadBack, reached_rules_stored}
use maga.Dsl.Json.{null}
use maga.Api.Dto.{decode_rule}
use maga.Service.Evaluated.{reached_evaluate}
use maga.Service.Bulk.{undeleted, BulkEntries, redistribute_bulk_succeeds}
use maga.Service.Preview.{test_predicts}
use maga.Tests.Ascii.{ascii, ascii-MatchesNames}
use maga.Tests.Outside.{outside}
use maga.Tests.RuleEngine.{in_order, in_order-IsIteration, site_rule}
use maga.Tests.Storage.{tables}

abbrev new_rule : RuleJson
new_rule = record {
  name = codes "r";
  description = [];
  pattern = codes "sw-";
  capture_transforms = (codes "site", record { op = codes "upper"; args = [] } ∷ []) ∷ [];
  cluster_key_template = codes "S-{site}";
  priority = pos 10;
  is_enabled = true;
}

abbrev first_tables : Db
first_tables = step outside (create_rule (ok new_rule)) empty_tables

abbrev pub second_tables : Db
second_tables = step outside (upsert_discovered (codes "10.0.0.1") (codes "sw-ber")) first_tables

pub second_reached : Reachable outside second_tables
second_reached =
    after (upsert_discovered (codes "10.0.0.1") (codes "sw-ber"))
      (after (create_rule (ok new_rule)) start)

reached-IsWellFormed_example : IsWellFormed second_tables
reached-IsWellFormed_example = reached-IsWellFormed outside second_tables second_reached

reached_evaluate_example :
    let rules = Storage.Rules.list_enabled_ordered second_tables in
    ((before : List Rule) × (rule : Rule) × (later : List Rule) × (r : MatchResult) × (rules
        ≡ before ++ rule ∷ later)
      × All (AppliesNot ascii (codes "sw-ber")) before
      × (evaluate ascii in_order (codes "sw-ber") rules ≡ ok r)
      × (r.rule_id ≡ some rule.id)
      × ((k : Str)
          → str_mem k (extract_template_tokens rule.cluster_key_template) ≡ true
          → is_some (lookup k r.transformed_captures) ≡ true))
    ⊎ (All (AppliesNot ascii (codes "sw-ber")) rules
        × (evaluate ascii in_order (codes "sw-ber") rules ≡ ok no_match))
reached_evaluate_example =
    reached_evaluate outside second_tables (codes "sw-ber") ascii-MatchesNames in_order-IsIteration
      second_reached

redistribute_bulk_succeeds_example :
    let targets = outside.sql.newest_first (undeleted tables.elements) in
    let r =
      Api.Elements.redistribute_bulk outside.texts
        (postgres_elements ascii in_order outside.sql outside.new_uuid)
        none
        tables in
    (r.0 ≡ json 200 (record { total = length targets; succeeded = length targets }))
    × (hs : List AssignmentHistory) × BulkEntries hs targets
    × (r.1.history ≡ tables.history ++ hs)
redistribute_bulk_succeeds_example =
    redistribute_bulk_succeeds outside tables ascii-MatchesNames (λ e es m. m)

abbrev site_test : RuleTestRequest
site_test = record {
  hostname = codes "sw-ber";
  pattern = codes "sw-";
  capture_transforms = site_rule.capture_transforms;
  cluster_key_template = codes "S-{site}";
}

abbrev site_answer : RuleTestResponse
site_answer = record {
  matched = true;
  raw_captures = (codes "site", codes "ber") ∷ [];
  transformed_captures = (codes "site", codes "BER") ∷ [];
  rendered_cluster_key = codes "S-BER";
  would_create_new_cluster = true;
  warnings = [];
}

site_tested :
    Api.Rules.test outside.texts ascii in_order (postgres_rules ascii) (ok site_test) tables
    ≡ (json 200 site_answer, tables)
unfolding Api.Rules.test evaluate validate_rule lookup insert has_prefix render_template
    extract_template_tokens Storage.Clusters.exists_cluster_by_lookup_key apply apply_op registry
site_tested = refl

abbrev site_request : Request
site_request = record { element_id = 2; trigger = manual_redistribute_single; history_id = 9 }

test_predicts_example :
    let rule = record (Api.Rules.candidate site_test) {
      id = 7;
      name = codes "r";
      description = [];
      priority = pos 10;
    } in
    let x = assign postgres ascii in_order site_request (codes "sw-ber") (rule ∷ []) tables in
    (tables ≡ tables)
    × (x.1.clusters
        ≡ (if true then tables.clusters ++ new_cluster 9 (codes "S-BER") ∷ [] else tables.clusters))
    × ((r : MatchResult)
        → x.0 ≡ ok r
        → (is_some r.rule_id ≡ true)
          × (r.raw_captures ≡ site_answer.raw_captures)
          × (r.transformed_captures ≡ site_answer.transformed_captures)
          × (r.rendered_cluster_key ≡ codes "S-BER"))
test_predicts_example =
    test_predicts outside site_test tables tables site_answer 7 (codes "r") [] (pos 10) site_request
      site_tested

clusters_refine_example :
    ((key : Str)
      → ((c : Cluster) × ((Storage.Clusters.get_or_create_by_lookup_key key second_tables).0 ≡ ok c)
          × (c.id ≡ id_or second_tables.next_id (names_of second_tables key)))
        × ((k : Str)
            → names_of (Storage.Clusters.get_or_create_by_lookup_key key second_tables).1 k
              ≡ bind_key second_tables.next_id key (names_of second_tables) k))
    × ((id : Uuid) (name : Str) (d : Option Str) (k : Str)
        → names_of (Storage.Clusters.rename id name d second_tables).1 k ≡ names_of second_tables k)
    × ((id : Uuid) (k : Str)
        → names_of (Storage.Clusters.delete id second_tables).1 k ≡ (
            if is_ok (Storage.Clusters.delete id second_tables).0
            then free_id id (names_of second_tables) k
            else names_of second_tables k))
clusters_refine_example =
    clusters_refine second_tables (reached-IsWellFormed outside second_tables second_reached)

-- The rule has been stored, with its transforms as they were decoded.
first_tables_rules :
    map (λ r. r.capture_transforms) first_tables.rules ≡ site_rule.capture_transforms ∷ []
unfolding step Api.Rules.create decode_rule lookup validate_rule insert extract_template_tokens
    Storage.Rules.create
first_tables_rules = refl

reached_rules_stored_example :
    ReadBack outside second_tables.rules
    × ReadBack outside (Storage.Rules.list_enabled_ordered second_tables)
reached_rules_stored_example = reached_rules_stored outside second_tables second_reached

-- An argument that is null is decoded, and then cannot be written: the request is answered as an internal error.
abbrev null_rule : RuleJson
null_rule = record new_rule {
  capture_transforms =
      (codes "site", record { op = codes "prefix"; args = (codes "text", null) ∷ [] } ∷ []) ∷ [];
}

null_refused :
    Api.Rules.create outside.texts ascii in_order
      (postgres_rules ascii)
      (decode_rule ascii outside.json_error (ok null_rule))
      empty_tables
    ≡ (internal outside.texts (other (codes "marshal capture transforms")), empty_tables)
unfolding step Api.Rules.create decode_rule lookup validate_rule insert extract_template_tokens
    Storage.Rules.create
null_refused = refl
