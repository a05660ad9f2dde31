-- ===== src/Api/Elements.antt =====
-- internal/api/http/elements.go: `ElementsHandler`
use maga.Base.{
  ℕ, ◌+◌, List, [], ◌∷◌, ◌++◌, map, length, Option, none, some, Str, codes, is_empty, if◌then◌else◌,
  Result, ok, err,
}
use maga.Domain.{
  Uuid, Rule, NetworkElement, RepoError, TriggerSource, manual_redistribute_single,
  manual_redistribute_bulk,
}
use maga.Assignment.{Action, AssignmentHistory, AssignError}
use maga.RuleEngine.Evaluate.{MatchResult}
use maga.Storage.Elements.Listing.{ElementFilter, no_filter}
use maga.Api.Respond.{
  Response, json, no_content, Texts, write_error, write_internal_error, not_found_or_internal,
  internal, with_id, with_body, with_result,
}
use maga.Api.Pagination.{PageError, parse_pagination}
use maga.Api.Dto.{
  ElementResponse, AssignmentHistoryResponse, element_from_domain, assignment_history_from_domain,
}

-- `ElementRepo`, `ElementHistoryRepo`, `ElementRuleLister` and `ElementAssigner`
pub record ElementRepos (S : Type 0) : Type 0 where
  pub get : Uuid → Action S NetworkElement
  pub list : ElementFilter → Action S (List NetworkElement)
  pub soft_delete : Uuid → Action S Unit
  pub list_by_element : Uuid → Action S (List AssignmentHistory)
  pub list_enabled_ordered : Action S (List Rule)
  pub assign : Uuid → Str → List Rule → TriggerSource → S → Result AssignError MatchResult × S

-- The query parameters of `List`.
pub record ListQuery : Type 0 where
  pub limit : Str
  pub offset : Str
  pub assignment_status : Str
  pub q : Str
  pub cluster_id : Str

-- `total` and `succeeded`
pub record BulkResponse : Type 0 where
  pub total : ℕ
  pub succeeded : ℕ

module _ {S : Type 0} (t : Texts) (repos : ElementRepos S) where
  abbrev filter_of : ListQuery → ℕ × ℕ → Option Uuid → ElementFilter
  filter_of p (limit, offset) cluster_id = record {
    cluster_id = cluster_id;
    assignment_status = p.assignment_status;
    query = p.q;
    limit = limit;
    offset = offset;
  }

  abbrev list_filtered : ElementFilter → S → Response (List ElementResponse) × S
  list_filtered f s =
      with_result (internal t) (repos.list f s)
        λ es s'. (json 200 (map (element_from_domain t.format_uuid) es), s')

  abbrev list_cluster : ListQuery → ℕ × ℕ → Option Uuid → S → Response (List ElementResponse) × S
  list_cluster p page none s =
      (write_error 400 (codes "invalid_id") (codes "cluster_id must be a UUID") [], s)
  list_cluster p page (some id) s = list_filtered (filter_of p page (some id)) s

  abbrev list_page :
      (PageError → Str)
      → ListQuery
      → Result PageError (ℕ × ℕ)
      → S
      → Response (List ElementResponse) × S
  list_page page_error p (err e) s =
      (write_error 400 (codes "invalid_pagination") (page_error e) [], s)
  list_page page_error p (ok page) s =
      if is_empty p.cluster_id
      then list_filtered (filter_of p page none) s
      else list_cluster p page (t.parse_uuid p.cluster_id) s

  unfoldable pub list : (PageError → Str) → ListQuery → S → Response (List ElementResponse) × S
  list page_error p s = list_page page_error p (parse_pagination p.limit p.offset) s

  unfoldable pub get : Str → S → Response ElementResponse × S
  get raw s = with_id t raw s λ id.
      with_result (not_found_or_internal t (codes "element not found")) (repos.get id s)
        λ e s'. (json 200 (element_from_domain t.format_uuid e), s')

  unfoldable pub history : Str → S → Response (List AssignmentHistoryResponse) × S
  history raw s = with_id t raw s λ id.
      with_result (internal t) (repos.list_by_element id s)
        λ hs s'. (json 200 (map (assignment_history_from_domain t.format_uuid) hs), s')

  abbrev pub redistributed : Result AssignError MatchResult × S → Response Str × S
  redistributed (err e, s) = (write_internal_error (t.assign_error e), s)
  redistributed (ok r, s) = (json 200 r.rendered_cluster_key, s)

  unfoldable pub redistribute_single : Str → S → Response Str × S
  redistribute_single raw s = with_id t raw s λ id.
      with_result (not_found_or_internal t (codes "element not found")) (repos.get id s) λ e s'.
        with_result (internal t) (repos.list_enabled_ordered s') λ rules s''.
          redistributed (repos.assign e.id e.sys_name rules manual_redistribute_single s'')

  abbrev pub add_success : {A : Type 0} → Result AssignError A → ℕ → ℕ
  add_success (ok a) n = n + 1
  add_success (err e) n = n

  -- The loop over the targets, with the count so far.
  unfoldable pub assign_all : List Rule → List NetworkElement → ℕ → S → ℕ × S
  assign_all rules [] n s = (n, s)
  assign_all rules (e ∷ es) n s =
      let r = repos.assign e.id e.sys_name rules manual_redistribute_bulk s in
      assign_all rules es (add_success r.0 n) r.1

  abbrev pub assign_targets : List NetworkElement → S → Response BulkResponse × S
  assign_targets targets s = with_result (internal t) (repos.list_enabled_ordered s) λ rules s'.
      let r = assign_all rules targets 0 s' in
      (json 200 (record { total = length targets; succeeded = r.0 }), r.1)

  abbrev pub Loaded : Type 0
  Loaded = Result (Response BulkResponse) (List NetworkElement) × S

  abbrev load_found :
      Str → (NetworkElement → S → Loaded) → Result RepoError NetworkElement × S → Loaded
  load_found raw next (err e, s) =
      (err (not_found_or_internal t (codes "element " ++ raw ++ codes " not found") e), s)
  load_found raw next (ok e, s) = next e s

  abbrev load_one : Str → (NetworkElement → S → Loaded) → Option Uuid → S → Loaded
  load_one raw next none s =
      (err (write_error 400 (codes "invalid_id") (codes "element_ids must all be UUIDs") []), s)
  load_one raw next (some id) s = load_found raw next (repos.get id s)

  -- The loop over `element_ids`; the targets so far are in `acc`.
  unfoldable pub load_targets : List Str → List NetworkElement → S → Loaded
  load_targets [] acc s = (ok acc, s)
  load_targets (raw ∷ raws) acc s =
      load_one raw (λ e s'. load_targets raws (acc ++ e ∷ []) s') (t.parse_uuid raw) s

  abbrev pub with_targets : Loaded → Response BulkResponse × S
  with_targets (err r, s) = (r, s)
  with_targets (ok targets, s) = assign_targets targets s

  abbrev pub redistribute_ids : List Str → S → Response BulkResponse × S
  redistribute_ids [] s = with_result (internal t) (repos.list no_filter s) assign_targets
  redistribute_ids (raw ∷ raws) s = with_targets (load_targets (raw ∷ raws) [] s)

  -- An empty request has no body, and so no ids.
  abbrev pub body_or_none : Option (Result Str (List Str)) → Result Str (List Str)
  body_or_none none = ok []
  body_or_none (some body) = body

  unfoldable pub redistribute_bulk : Option (Result Str (List Str)) → S → Response BulkResponse × S
  unfolding assign_all load_targets
  redistribute_bulk body s = with_body (body_or_none body) s λ ids. redistribute_ids ids s

  unfoldable pub delete : Str → S → Response Unit × S
  delete raw s = with_id t raw s λ id.
      with_result (not_found_or_internal t (codes "element not found")) (repos.soft_delete id s)
        λ done s'. (no_content, s')
