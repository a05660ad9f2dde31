-- ===== src/Api/Clusters.antt =====
-- internal/api/http/clusters.go: `ClustersHandler`
use maga.Base.{ℕ, List, [], map, Option, Str, codes, Result}
use maga.Domain.{Uuid, Cluster, RepoError, not_found, cluster_not_empty, other}
use maga.Assignment.{Action}
use maga.Api.Respond.{
  Response, json, no_content, Texts, write_error, write_not_found, write_internal_error,
  not_found_or_internal, internal, with_id, with_body, with_result,
}
use maga.Api.Dto.{ClusterResponse, ClusterRenameRequest, cluster_from_domain}

-- `ClusterRepo`
pub record ClusterRepo (S : Type 0) : Type 0 where
  pub get : Uuid → Action S Cluster
  pub list : Action S (List (Cluster × ℕ))
  pub rename : Uuid → Str → Option Str → Action S Cluster
  pub delete : Uuid → Action S Unit

module _ {S : Type 0} (t : Texts) (clusters : ClusterRepo S) where
  unfoldable pub list : S → Response (List ClusterResponse) × S
  list s =
      with_result (internal t) (clusters.list s)
        λ cs s'. (json 200 (map (cluster_from_domain t.format_uuid) cs), s')

  -- The responses of `Get` and `Rename` have no members.
  unfoldable pub get : Str → S → Response ClusterResponse × S
  get raw s = with_id t raw s λ id.
      with_result (not_found_or_internal t (codes "cluster not found")) (clusters.get id s)
        λ c s'. (json 200 (cluster_from_domain t.format_uuid (c, 0)), s')

  unfoldable pub rename : Str → Result Str ClusterRenameRequest → S → Response ClusterResponse × S
  rename raw body s = with_id t raw s λ id. with_body body s λ q.
      with_result (not_found_or_internal t (codes "cluster not found"))
        (clusters.rename id q.display_name q.description s)
        λ c s'. (json 200 (cluster_from_domain t.format_uuid (c, 0)), s')

  abbrev pub delete_failed : RepoError → Response Unit
  delete_failed not_found = write_not_found (codes "cluster not found")
  delete_failed cluster_not_empty =
      write_error 409 (codes "cluster_not_empty") (codes "cluster still has member elements") []
  delete_failed (other m) = write_internal_error (t.repo_error (other m))

  unfoldable pub delete : Str → S → Response Unit × S
  delete raw s =
      with_id t raw s
        λ id. with_result delete_failed (clusters.delete id s) λ done s'. (no_content, s')
