-- ===== src/Storage/Elements/Listing.antt =====
-- internal/storage/postgres/element_repo.go: `List`
use maga.Base.{
  ℕ, Bool, true, false, not, ◌||◌, ◌&&◌, List, [], ◌∷◌, ◌++◌, Option, none, some, Str, codes,
  str_eq, is_empty, take, drop, ◌==◌, if◌then◌else◌,
}
use maga.Domain.{Uuid, NetworkElement, AssignmentStatus, unassigned, assigned}
use maga.Storage.Tables.{Db}

-- internal/domain/element.go: `ElementFilter`
pub record ElementFilter : Type 0 where
  pub cluster_id : Option Uuid
  pub assignment_status : Str
  pub query : Str
  pub limit : ℕ
  pub offset : ℕ

-- `ElementFilter{}`
abbrev pub no_filter : ElementFilter
no_filter = record { cluster_id = none; assignment_status = []; query = []; limit = 0; offset = 0 }

-- What the statement takes from Postgres and from `strings`: `LIKE`, `LOWER`, `strings.ToLower`, and
-- `ORDER BY last_seen_at DESC, id`.
pub record Sql : Type 0 where
  pub like : Str → Str → Bool
  pub lower : Str → Str
  pub to_lower : Str → Str
  pub newest_first : List NetworkElement → List NetworkElement

abbrev status_text : AssignmentStatus → Str
status_text unassigned = codes "unassigned"
status_text assigned = codes "assigned"

-- `cluster_id = $n`: a null is equal to nothing.
abbrev in_cluster : Option Uuid → Option Uuid → Bool
in_cluster none c = true
in_cluster (some id) none = false
in_cluster (some id) (some c) = c == id

abbrev has_status : Str → AssignmentStatus → Bool
has_status s st = is_empty s || str_eq (status_text st) s

abbrev matches_query : Sql → Str → NetworkElement → Bool
matches_query sql q e =
    let pattern = codes "%" ++ sql.to_lower q ++ codes "%" in
    is_empty q || sql.like (sql.lower e.sys_name) pattern || sql.like e.ip_address pattern

abbrev pub selects : Sql → ElementFilter → NetworkElement → Bool
selects sql f e =
    not e.deleted
    && in_cluster f.cluster_id e.cluster_id
    && has_status f.assignment_status e.assignment_status
    && matches_query sql f.query e

unfoldable pub selected : Sql → ElementFilter → List NetworkElement → List NetworkElement
selected sql f [] = []
selected sql f (e ∷ es) = let rest = selected sql f es in if selects sql f e then e ∷ rest else rest

-- No `LIMIT` and no `OFFSET` for 0
abbrev pub page : ℕ → ℕ → List NetworkElement → List NetworkElement
page limit offset es = if limit == 0 then drop offset es else take limit (drop offset es)

unfoldable pub list : Sql → ElementFilter → Db → List NetworkElement
unfolding selected
list sql f db = page f.limit f.offset (sql.newest_first (selected sql f db.elements))
