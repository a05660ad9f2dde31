-- ===== src/Api/Site.antt =====
-- internal/api/http/spa.go and health.go: the requests besides those of the API. `stat` tells whether `fs.Stat`
-- finds a name in the file system, and `file_server` is `http.FileServer`, by the path of its request.
use maga.Base.{
  ℕ, ◌≡◌, Bool, true, Bool-cases, inl, inr, [], ◌∷◌, Option, none, some, Str, codes, ◌==◌,
  if◌then◌else◌, Dict,
}

abbrev pub without_slash : Str → Str
without_slash [] = []
without_slash (c ∷ s) = if c == b'/' then s else c ∷ s

abbrev pub index_if_empty : Str → Str
index_if_empty [] = codes "index.html"
index_if_empty (c ∷ s) = c ∷ s

-- The name that is looked up for a path.
unfoldable pub file_name : Str → Str
file_name path = index_if_empty (without_slash path)

module _ {R : Type 0} where
  -- The handler of `NewSPAHandler`
  unfoldable pub spa_handler : (Str → Bool) → (Str → R) → Str → R
  unfolding file_name
  spa_handler stat file_server path =
      if stat (file_name path) then file_server path else file_server (codes "/")

  -- `NewRouter`: the requests that no route matches, where `missing` is the answer of chi.
  abbrev pub unmatched : (Str → R) → Option (Str → Bool) → (Str → R) → Str → R
  unmatched missing none file_server path = missing path
  unmatched missing (some stat) file_server path = spa_handler stat file_server path

-- `HealthHandler`
pub record HealthResponse : Type 0 where
  pub content_type : Str
  pub status : ℕ
  pub body : Dict Str

abbrev pub health_handler : HealthResponse
health_handler = record {
  content_type = codes "application/json";
  status = 200;
  body = (codes "status", codes "ok") ∷ [];
}

-- A file server that answers the requests for files that are there, and that for the root where there is an
-- index, answers every request of the front end.
pub spa_handler_answers :
    {R : Type 0} (answered : R → Type 0) (stat : Str → Bool) (file_server : Str → R)
    → ((path : Str) → stat (file_name path) ≡ true → answered (file_server path))
    → answered (file_server (codes "/"))
    → (path : Str) → answered (spa_handler stat file_server path)
unfolding spa_handler
spa_handler_answers answered stat file_server files root path =
    elim (Bool-cases (stat (file_name path))) [
      | inl there ↦ rw there (files path there)
      | inr missing ↦ rw missing root
    ]
