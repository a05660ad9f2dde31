-- ===== src/Api/Rules.antt =====
-- internal/api/http/rules.go: `RulesHandler`
use maga.Base.{
  Bool, true, false, not, List, [], ◌∷◌, map, Str, codes, is_empty, pos, if◌then◌else◌, Result, ok,
  err, is_some,
}
use maga.Go.Libs.{Libs}
use maga.Domain.{Uuid, Rule}
use maga.Assignment.{Action, panicked}
use maga.RuleEngine.Evaluate.{MatchResult, Panic, evaluate}
use maga.RuleEngine.Validate
use maga.RuleEngine.Validate.{validate_rule}
use maga.Api.Respond.{
  Response, json, no_content, Texts, FieldError, rule_field, write_validation_error,
  write_internal_error, not_found_or_internal, internal, with_id, with_body, with_result,
}
use maga.Api.Dto.{
  RuleRequest, RuleResponse, RuleTestRequest, RuleTestResponse, to_domain, rule_from_domain,
}

-- `RuleRepo` and `ClusterExistsChecker`
pub record RuleRepo (S : Type 0) : Type 0 where
  pub create : Rule → Action S Rule
  pub get : Uuid → Action S Rule
  pub update : Rule → Action S Rule
  pub delete : Uuid → Action S Unit
  pub list_all_ordered : Action S (List Rule)
  pub reorder : List Uuid → Action S Unit
  pub exists_cluster_by_lookup_key : Str → Action S Bool

-- `fieldErrorsFromValidation`
abbrev field_errors_from_validation : List Validate.FieldError → List FieldError
field_errors_from_validation errs = map rule_field errs

-- The candidate of `Test`: the id, the name and the priority are zero values.
abbrev pub candidate : RuleTestRequest → Rule
candidate q = record {
  id = 0;
  name = [];
  description = [];
  pattern = q.pattern;
  capture_transforms = q.capture_transforms;
  cluster_key_template = q.cluster_key_template;
  priority = pos 0;
  is_enabled = true;
}

abbrev pub test_response : MatchResult → Bool → RuleTestResponse
test_response r creates = record {
  matched = is_some r.rule_id;
  raw_captures = r.raw_captures;
  transformed_captures = r.transformed_captures;
  rendered_cluster_key = r.rendered_cluster_key;
  would_create_new_cluster = creates;
  warnings = r.warnings;
}

module _ {S : Type 0} (t : Texts) (l : Libs) (order : List Str → List Str)
    (rules : RuleRepo S) where
  abbrev pub unless_invalid :
      {B : Type 0} → List Validate.FieldError → S → Response B × S → Response B × S
  unless_invalid [] s next = next
  unless_invalid (e ∷ errs) s next =
      (write_validation_error (field_errors_from_validation (e ∷ errs)), s)

  unfoldable pub create : Result Str RuleRequest → S → Response RuleResponse × S
  create body s = with_body body s λ q.
      unless_invalid (validate_rule l order q.pattern q.capture_transforms q.cluster_key_template) s
        (with_result (internal t) (rules.create (to_domain q) s)
          λ created s'. (json 201 (rule_from_domain t.format_uuid created), s'))

  unfoldable pub list : S → Response (List RuleResponse) × S
  list s =
      with_result (internal t) (rules.list_all_ordered s)
        λ rs s'. (json 200 (map (rule_from_domain t.format_uuid) rs), s')

  unfoldable pub get : Str → S → Response RuleResponse × S
  get raw s = with_id t raw s λ id.
      with_result (not_found_or_internal t (codes "rule not found")) (rules.get id s)
        λ rule s'. (json 200 (rule_from_domain t.format_uuid rule), s')

  unfoldable pub update : Str → Result Str RuleRequest → S → Response RuleResponse × S
  update raw body s = with_id t raw s λ id. with_body body s λ q.
      unless_invalid (validate_rule l order q.pattern q.capture_transforms q.cluster_key_template) s
        (with_result (not_found_or_internal t (codes "rule not found"))
          (rules.update (record (to_domain q) { id = id }) s)
          λ updated s'. (json 200 (rule_from_domain t.format_uuid updated), s'))

  unfoldable pub delete : Str → S → Response Unit × S
  delete raw s = with_id t raw s λ id.
      with_result (not_found_or_internal t (codes "rule not found")) (rules.delete id s)
        λ done s'. (no_content, s')

  unfoldable pub reorder : Result Str (List Uuid) → S → Response Str × S
  reorder body s =
      with_body body s
        λ ids. with_result (internal t) (rules.reorder ids s) λ done s'. (json 200 (codes "ok"), s')

  abbrev pub check_cluster : MatchResult → S → Response RuleTestResponse × S
  check_cluster r s =
      if is_empty r.rendered_cluster_key
      then (json 200 (test_response r false), s)
      else with_result (internal t) (rules.exists_cluster_by_lookup_key r.rendered_cluster_key s)
          λ exists s'. (json 200 (test_response r (not exists)), s')

  -- A panic of `Evaluate` is answered like an error of it; chi's `Recoverer` writes the status 500 as well.
  abbrev pub check_evaluated : Result Panic MatchResult → S → Response RuleTestResponse × S
  check_evaluated (err p) s = (write_internal_error (t.assign_error (panicked p)), s)
  check_evaluated (ok r) s = check_cluster r s

  unfoldable pub test : Result Str RuleTestRequest → S → Response RuleTestResponse × S
  test body s = with_body body s λ q.
      unless_invalid (validate_rule l order q.pattern q.capture_transforms q.cluster_key_template) s
        (check_evaluated (evaluate l order q.hostname (candidate q ∷ [])) s)
