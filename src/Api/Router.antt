-- ===== src/Api/Router.antt =====
-- internal/api/http/router.go: the routes. A path is its segments, without an empty one behind a slash at its
-- end; which route chi takes of those that match a request is left to chi.
pub mod Unique
use maga.Base.{
  Bool, true, false, ◌&&◌, ◌||◌, List, [], ◌∷◌, ◌++◌, Str, codes, str_eq, if◌then◌else◌, map,
}

pub data Method : Type 0 where
  get post put patch delete : Method

-- A segment of a pattern: a text, a parameter in braces, or the `*` at the end.
pub data Segment : Type 0 where
  literal : Str → Segment
  parameter : Segment
  wildcard : Segment

pub data Endpoint : Type 0 where
  health swagger : Endpoint
  create_rule list_rules reorder_rules test_rule get_rule update_rule delete_rule : Endpoint
  list_clusters get_cluster rename_cluster delete_cluster : Endpoint
  create_job list_jobs get_job job_results cancel_job : Endpoint
  list_elements redistribute_bulk get_element element_history redistribute_single delete_element :
      Endpoint

pub record Route : Type 0 where
  pub method : Method
  pub pattern : List Segment
  pub endpoint : Endpoint

abbrev pub same_method : Method → Method → Bool
same_method get get = true
same_method post post = true
same_method put put = true
same_method patch patch = true
same_method delete delete = true
same_method _ _ = false

unfoldable pub pattern_matches : List Segment → List Str → Bool
pattern_matches [] [] = true
pattern_matches [] (s ∷ ss) = false
pattern_matches (wildcard ∷ ps) ss = true
pattern_matches (literal t ∷ ps) [] = false
pattern_matches (literal t ∷ ps) (s ∷ ss) = str_eq t s && pattern_matches ps ss
pattern_matches (parameter ∷ ps) [] = false
pattern_matches (parameter ∷ ps) (s ∷ ss) = pattern_matches ps ss

abbrev pub route_matches : Method → List Str → Route → Bool
route_matches m path r = same_method m r.method && pattern_matches r.pattern path

abbrev route : Method → List Segment → Endpoint → Route
route m p e = record { method = m; pattern = p; endpoint = e }

-- `r.Route` of a prefix under "/api/v1"
abbrev under : List Segment → List Route → List Route
under prefix rs =
    map
      (λ (r : Route). record r {
        pattern = literal (codes "api") ∷ literal (codes "v1") ∷ (prefix ++ r.pattern);
      })
      rs

-- `NewRouter`
abbrev pub new_router : List Route
new_router =
    route get (literal (codes "healthz") ∷ []) health
      ∷ route get (literal (codes "swagger") ∷ wildcard ∷ []) swagger
      ∷ under (literal (codes "rules") ∷ []) (
          route post [] create_rule
          ∷ route get [] list_rules
          ∷ route post (literal (codes "reorder") ∷ []) reorder_rules
          ∷ route post (literal (codes "test") ∷ []) test_rule
          ∷ route get (parameter ∷ []) get_rule
          ∷ route put (parameter ∷ []) update_rule
          ∷ route delete (parameter ∷ []) delete_rule
          ∷ [])
    ++ under (literal (codes "clusters") ∷ []) (
        route get [] list_clusters
        ∷ route get (parameter ∷ []) get_cluster
        ∷ route patch (parameter ∷ []) rename_cluster
        ∷ route delete (parameter ∷ []) delete_cluster
        ∷ [])
    ++ under (literal (codes "discovery") ∷ literal (codes "jobs") ∷ []) (
        route post [] create_job
        ∷ route get [] list_jobs
        ∷ route get (parameter ∷ []) get_job
        ∷ route get (parameter ∷ literal (codes "results") ∷ []) job_results
        ∷ route post (parameter ∷ literal (codes "cancel") ∷ []) cancel_job
        ∷ [])
    ++ under (literal (codes "elements") ∷ []) (
        route get [] list_elements
        ∷ route post (literal (codes "redistribute") ∷ []) redistribute_bulk
        ∷ route get (parameter ∷ []) get_element
        ∷ route get (parameter ∷ literal (codes "history") ∷ []) element_history
        ∷ route post (parameter ∷ literal (codes "redistribute") ∷ []) redistribute_single
        ∷ route delete (parameter ∷ []) delete_element
        ∷ [])
