-- ===== src/Service/Reached.antt =====
-- cmd/apiserver/main.go: what holds of the tables behind any sequence of calls.
use maga.Base.{◌≡◌, refl, ap, ◌∙◌, arith, List, [], ◌∷◌, Option, Str, Dict, Result, ok, err}
use maga.Domain.{Uuid, Rule, AssignmentStatus}
use maga.Assignment.{AssignmentHistory}
use maga.Api.Respond.{Response}
use maga.Dsl.Types.{Pipeline}
use maga.Dsl.Json.{JsonError}
use maga.Dsl.Json.Maps.{TransformsJson, unmarshal_transforms}
use maga.Api.Dto.{RuleRequest, RuleJson, with_transforms, decode_rule, to_domain}
use maga.Storage.Assigning.{insert_history}
use maga.Api
use maga.Api.Respond.Keeps.{with_id_keeps, with_body_keeps, with_result_keeps}
use maga.RuleEngine.Validate
use maga.RuleEngine.Validate.{validate_rule}
use maga.Storage
use maga.Storage.Tables.{Db}
use maga.Storage.WellFormed.{
  IsWellFormed, element_references, history_references, unique_keys, unique_priorities, unique_ids,
}
use maga.Storage.WellFormed.RuleStatements.{
  create_rule-IsWellFormed, update_rule-IsWellFormed, reorder-IsWellFormed,
  delete_rule-IsWellFormed,
}
use maga.Storage.WellFormed.Statements.{
  get_or_create-IsWellFormed, rename-IsWellFormed, delete_cluster-IsWellFormed,
  upsert_discovered-IsWellFormed, soft_delete-IsWellFormed, update_assignment-IsWellFormed,
  insert_history-IsWellFormed,
}
use maga.Service.{
  Outside, Call, create_rule, update_rule, delete_rule, reorder_rules, rename_cluster,
  delete_cluster, delete_element, upsert_discovered, get_or_create_cluster, update_assignment,
  insert_assignment_history, step, empty_tables, Reachable, start, after, postgres_rules,
}

-- `ValidateRule` reports nothing of the rule.
abbrev pub IsValid : Outside → Rule → Type 0
IsValid o r =
    validate_rule o.libs o.order r.pattern r.capture_transforms r.cluster_key_template ≡ []

-- The transforms of the rule were read from JSON.
abbrev pub IsDecoded : Outside → Rule → Type 0
IsDecoded o r = (raw : TransformsJson) × (unmarshal_transforms o.libs raw ≡ ok r.capture_transforms)

-- What each statement keeps; a rule that is stored has been decoded and validated.
pub record StatementsKeep (o : Outside) (I : Db → Type 0) : Type 0 where
  pub created :
      (r : Rule) (db : Db)
      → IsValid o r
      → IsDecoded o r
      → I db
      → I (Storage.Rules.create o.libs r db).1
  pub updated :
      (r : Rule) (db : Db)
      → IsValid o r
      → IsDecoded o r
      → I db
      → I (Storage.Rules.update o.libs r db).1
  pub deleted : (id : Uuid) (db : Db) → I db → I (Storage.Rules.delete id db).1
  pub reordered : (ids : List Uuid) (db : Db) → I db → I (Storage.Rules.reorder ids db).1
  pub renamed :
      (id : Uuid) (name : Str) (d : Option Str) (db : Db)
      → I db
      → I (Storage.Clusters.rename id name d db).1
  pub cluster_deleted : (id : Uuid) (db : Db) → I db → I (Storage.Clusters.delete id db).1
  pub soft_deleted : (id : Uuid) (db : Db) → I db → I (Storage.Elements.soft_delete id db).1
  pub upserted :
      (ip name : Str) (db : Db) → I db → I (Storage.Elements.upsert_discovered ip name db).1
  pub got_or_created :
      (key : Str) (db : Db) → I db → I (Storage.Clusters.get_or_create_by_lookup_key key db).1
  pub assigned_to :
      (id : Uuid) (c r : Option Uuid) (status : AssignmentStatus) (db : Db)
      → I db
      → I (Storage.Elements.update_assignment id c r status db).1
  pub inserted : (h : AssignmentHistory) (db : Db) → I db → I (insert_history h db).1

module _ (o : Outside) (I : Db → Type 0) (keep : StatementsKeep o I) where
  unless_invalid_keeps :
      {B : Type 0} (errs : List Validate.FieldError) (db : Db) (next : Response B × Db)
      → I db
      → (errs ≡ [] → I next.1)
      → I (Api.Rules.unless_invalid o.texts o.libs o.order (postgres_rules o.libs) errs db next).1
  unless_invalid_keeps [] db next h k = k refl
  unless_invalid_keeps (e ∷ errs) db next h k = h

  with_transforms-IsDecoded :
      (q : RuleJson) (r : Result JsonError (Dict Pipeline)) (body : RuleRequest)
      → unmarshal_transforms o.libs q.capture_transforms ≡ r
      → with_transforms o.json_error q r ≡ ok body
      → IsDecoded o (to_domain body)
  with_transforms-IsDecoded q (err e) body read made = cc
  with_transforms-IsDecoded q (ok ts) body read made =
      let same : ts ≡ body.capture_transforms = ground arith in
      (q.capture_transforms, read ∙ ap ok same)

  decode_rule-IsDecoded :
      (raw : Result Str RuleJson) (body : RuleRequest)
      → decode_rule o.libs o.json_error raw ≡ ok body
      → IsDecoded o (to_domain body)
  unfolding decode_rule
  decode_rule-IsDecoded (err m) body e = cc
  decode_rule-IsDecoded (ok q) body e =
      with_transforms-IsDecoded q (unmarshal_transforms o.libs q.capture_transforms) body refl e

  step_keeps : (c : Call) (db : Db) → I db → I (step o c db)
  unfolding step Api.Rules.create Api.Rules.update Api.Rules.delete Api.Rules.reorder
      Api.Clusters.rename Api.Clusters.delete Api.Elements.delete
  step_keeps (create_rule body) db h =
      with_body_keeps I (decode_rule o.libs o.json_error body) db _ h λ q decoded.
        unless_invalid_keeps
          (validate_rule o.libs o.order q.pattern q.capture_transforms q.cluster_key_template) db _
          h
          λ valid.
            with_result_keeps I _ _ _
              (keep.created (to_domain q) db valid (decode_rule-IsDecoded body q decoded) h)
              λ r s k. k
  step_keeps (update_rule raw body) db h = with_id_keeps I o.texts raw db _ h λ id.
      with_body_keeps I (decode_rule o.libs o.json_error body) db _ h λ q decoded.
        unless_invalid_keeps
          (validate_rule o.libs o.order q.pattern q.capture_transforms q.cluster_key_template) db _
          h
          λ valid.
            with_result_keeps I _ _ _
              (keep.updated (record (to_domain q) { id = id }) db valid
                (decode_rule-IsDecoded body q decoded) h)
              λ r s k. k
  step_keeps (delete_rule raw) db h =
      with_id_keeps I o.texts raw db _ h
        λ id. with_result_keeps I _ _ _ (keep.deleted id db h) λ r s k. k
  step_keeps (reorder_rules body) db h =
      with_body_keeps I body db _ h
        λ ids _. with_result_keeps I _ _ _ (keep.reordered ids db h) λ r s k. k
  step_keeps (rename_cluster raw body) db h = with_id_keeps I o.texts raw db _ h λ id.
      with_body_keeps I body db _ h λ q _.
        with_result_keeps I _ _ _ (keep.renamed id q.display_name q.description db h) λ c s k. k
  step_keeps (delete_cluster raw) db h =
      with_id_keeps I o.texts raw db _ h
        λ id. with_result_keeps I _ _ _ (keep.cluster_deleted id db h) λ c s k. k
  step_keeps (delete_element raw) db h =
      with_id_keeps I o.texts raw db _ h
        λ id. with_result_keeps I _ _ _ (keep.soft_deleted id db h) λ c s k. k
  step_keeps (upsert_discovered ip name) db h = keep.upserted ip name db h
  step_keeps (get_or_create_cluster key) db h = keep.got_or_created key db h
  step_keeps (update_assignment id c r status) db h = keep.assigned_to id c r status db h
  step_keeps (insert_assignment_history e) db h = keep.inserted e db h

  pub reached_keeps : {db : Db} → I empty_tables → Reachable o db → I db
  reached_keeps h start = h
  reached_keeps h (after c r) = step_keeps c _ (reached_keeps h r)

-- Whatever calls the handlers, the assignments and the scans make, in whatever order and with whatever comes
-- between them: each reference of a row is to a row that is there, no two clusters have a lookup key in
-- common, and no two rules an id or a priority.
pub reached-IsWellFormed : (o : Outside) (db : Db) → Reachable o db → IsWellFormed db
unfolding element_references history_references unique_keys unique_priorities unique_ids
reached-IsWellFormed o db r =
    reached_keeps o IsWellFormed
      (record {
        created = λ rule db valid decoded. create_rule-IsWellFormed o.libs rule db;
        updated = λ rule db valid decoded. update_rule-IsWellFormed o.libs rule db;
        deleted = delete_rule-IsWellFormed;
        reordered = reorder-IsWellFormed;
        renamed = rename-IsWellFormed;
        cluster_deleted = delete_cluster-IsWellFormed;
        soft_deleted = soft_delete-IsWellFormed;
        upserted = upsert_discovered-IsWellFormed;
        got_or_created = get_or_create-IsWellFormed;
        assigned_to = update_assignment-IsWellFormed;
        inserted = insert_history-IsWellFormed;
      })
      (record {
        elements_refer = refl;
        history_refers = refl;
        keys_unique = refl;
        priorities_unique = refl;
        ids_unique = refl;
      })
      r
