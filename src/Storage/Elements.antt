-- ===== src/Storage/Elements.antt =====
-- internal/storage/postgres/element_repo.go
pub mod Deleted
pub mod Listing
use maga.Base.{
  ℕ, ◌+◌, Bool, true, false, ◌||◌, ◌&&◌, not, List, [], ◌∷◌, ◌++◌, Option, none, some, Str, codes,
  str_eq, if◌then◌else◌, ◌==◌, Result, ok, err,
}
use maga.Domain.{Uuid, NetworkElement, AssignmentStatus, unassigned, RepoError, not_found, other}
use maga.Assignment.{Action}
use maga.Storage.Tables.{Db, rule_exists, cluster_exists}

unfoldable pub element_by_ip : Str → List NetworkElement → Option NetworkElement
unfolding str_eq
element_by_ip ip [] = none
element_by_ip ip (e ∷ es) = if str_eq e.ip_address ip then some e else element_by_ip ip es

-- A row whose `deleted_at` is null.
unfoldable pub live_element : Uuid → List NetworkElement → Option NetworkElement
live_element id [] = none
live_element id (e ∷ es) = if e.id == id && not e.deleted then some e else live_element id es

unfoldable pub has_element : Uuid → List NetworkElement → Bool
has_element id [] = false
has_element id (e ∷ es) = e.id == id || has_element id es

unfoldable pub refresh_rows : Str → Str → List NetworkElement → List NetworkElement
unfolding str_eq
refresh_rows ip sys_name [] = []
refresh_rows ip sys_name (e ∷ es) =
    (if str_eq e.ip_address ip then record e { sys_name = sys_name } else e)
    ∷ refresh_rows ip sys_name es

abbrev pub new_element : Uuid → Str → Str → NetworkElement
new_element id ip sys_name = record {
  id = id;
  ip_address = ip;
  sys_name = sys_name;
  cluster_id = none;
  assignment_status = unassigned;
  last_rule_id = none;
  deleted = false;
}

abbrev pub insert_new : Str → Str → Option NetworkElement → Action Db NetworkElement
insert_new ip sys_name (some e) db = (err (other (codes "create element")), db)
insert_new ip sys_name none db =
    let e = new_element db.next_id ip sys_name in
    (ok e, record db { next_id = db.next_id + 1; elements = db.elements ++ e ∷ [] })

-- `Create`: the address must be new.
unfoldable pub create : Str → Str → Action Db NetworkElement
unfolding element_by_ip
create ip sys_name db = insert_new ip sys_name (element_by_ip ip db.elements) db

abbrev pub insert_or_refresh : Str → Str → Option NetworkElement → Action Db NetworkElement
insert_or_refresh ip sys_name (some e) db = (
  ok (record e { sys_name = sys_name }),
  record db { elements = refresh_rows ip sys_name db.elements },
)
insert_or_refresh ip sys_name none db =
    let e = new_element db.next_id ip sys_name in
    (ok e, record db { next_id = db.next_id + 1; elements = db.elements ++ e ∷ [] })

-- `UpsertDiscovered`, of which the columns of `sysDescr`, `sysObjectID` and `sysUpTime` are left out: on a
-- conflict it sets the columns of the response and no other.
unfoldable pub upsert_discovered : Str → Str → Action Db NetworkElement
unfolding element_by_ip refresh_rows
upsert_discovered ip sys_name db = insert_or_refresh ip sys_name (element_by_ip ip db.elements) db

abbrev pub or_not_found : Option NetworkElement → Result RepoError NetworkElement
or_not_found none = err not_found
or_not_found (some e) = ok e

-- `Get`
unfoldable pub get : Uuid → Db → Result RepoError NetworkElement
unfolding live_element
get id db = or_not_found (live_element id db.elements)

unfoldable pub assign_rows :
    Uuid → Option Uuid → Option Uuid → AssignmentStatus → List NetworkElement → List NetworkElement
assign_rows id c r status [] = []
assign_rows id c r status (e ∷ es) =
    (if e.id == id
      then record e { cluster_id = c; last_rule_id = r; assignment_status = status }
      else e)
    ∷ assign_rows id c r status es

-- `UpdateAssignment`: the references must be to rows; an id that is not in the table changes no row.
unfoldable pub update_assignment :
    Uuid → Option Uuid → Option Uuid → AssignmentStatus → Action Db Unit
unfolding has_element assign_rows
update_assignment id c r status db =
    if has_element id db.elements
    then (if cluster_exists c db.clusters && rule_exists r db.rules
        then (ok tt, record db { elements = assign_rows id c r status db.elements })
        else (err (other (codes "23503")), db))
    else (err not_found, db)

unfoldable pub delete_rows : Uuid → List NetworkElement → List NetworkElement
delete_rows id [] = []
delete_rows id (e ∷ es) =
    (if e.id == id then record e { deleted = true } else e) ∷ delete_rows id es

abbrev pub delete_live : Uuid → Option NetworkElement → Action Db Unit
delete_live id none db = (err not_found, db)
delete_live id (some e) db = (ok tt, record db { elements = delete_rows id db.elements })

-- `SoftDelete`: only a row that is not deleted yet counts; ids are unique, so a row of that id is it.
unfoldable pub soft_delete : Uuid → Action Db Unit
unfolding live_element delete_rows
soft_delete id db = delete_live id (live_element id db.elements) db
