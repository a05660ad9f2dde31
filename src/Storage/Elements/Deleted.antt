-- ===== src/Storage/Elements/Deleted.antt =====
-- internal/storage/postgres/element_repo.go: a soft-deleted element that answers a later scan.
use maga.Base.{◌≡◌, refl, arith, List, [], ◌∷◌, none, some, Str, ok, err, Option-cases, inl, inr}
use maga.Domain.{Uuid, NetworkElement, not_found}
use maga.Storage.Tables.{Db}
use maga.Storage.Elements.{
  live_element, element_by_ip, refresh_rows, delete_rows, delete_live, upsert_discovered, get,
  soft_delete,
}

refresh-delete_rows :
    (id : Uuid) (ip name : Str) (es : List NetworkElement)
    → live_element id (refresh_rows ip name (delete_rows id es)) ≡ none
unfolding live_element refresh_rows delete_rows
refresh-delete_rows id ip name [] = refl
refresh-delete_rows id ip name (e ∷ es) = ground (arith, refresh-delete_rows id ip name es)

-- An element that was soft-deleted and then answers a scan again is refreshed, and the scan is told that it
-- is there, but its row stays deleted: `Get` does not find it.
pub rediscovered_stays_deleted :
    (id : Uuid) (ip name : Str) (db deleted : Db) (e : NetworkElement)
    → soft_delete id db ≡ (ok tt, deleted)
    → element_by_ip ip deleted.elements ≡ some e
    → e.id ≡ id
    → ((upsert_discovered ip name deleted).0 ≡ ok (record e { sys_name = name }))
      × (get id (upsert_discovered ip name deleted).1 ≡ err not_found)
unfolding soft_delete upsert_discovered get
rediscovered_stays_deleted id ip name db deleted e gone found same =
    elim (Option-cases (live_element id db.elements)) [
      | inl missing ↦ let bad : delete_live id none db ≡ (ok tt, deleted) = rw missing at gone in cc
      | inr (old, live) ↦
          let done : delete_live id (some old) db ≡ (ok tt, deleted) = rw live at gone in
          let rows : delete_rows id db.elements ≡ deleted.elements = ground arith in
          (rw found, rw (found, ← rows) (rw (refresh-delete_rows id ip name db.elements)))
    ]
