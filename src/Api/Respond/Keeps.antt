-- ===== src/Api/Respond/Keeps.antt =====
-- internal/api/http: what a handler keeps of the state, from what its statements keep.
use maga.Base.{◌≡◌, refl, Str, Result, ok, err, Option-cases, inl, inr}
use maga.Domain.{Uuid, RepoError}
use maga.Api.Respond.{Response, Texts, with_id, with_id_or, with_body, with_result}

module _ {S B : Type 0} (I : S → Type 0) where
  pub with_id_keeps :
      (t : Texts) (raw : Str) (s : S) (next : Uuid → Response B × S)
      → I s
      → ((id : Uuid) → I (next id).1)
      → I (with_id t raw s next).1
  with_id_keeps t raw s next h k = elim (Option-cases (t.parse_uuid raw)) [
    | inl e ↦ rw (with_id, with_id_or, e) h
    | inr (id, e) ↦ rw (with_id, with_id_or, e) (k id)
  ]

  pub with_body_keeps :
      {A : Type 0}
      → (body : Result Str A) (s : S) (next : A → Response B × S) → I s
      → ((a : A) → body ≡ ok a → I (next a).1)
      → I (with_body body s next).1
  with_body_keeps (err m) s next h k = h
  with_body_keeps (ok a) s next h k = k a refl

  pub with_result_keeps :
      {A : Type 0}
      → (failed : RepoError → Response B) (r : Result RepoError A × S)
        (next : A → S → Response B × S)
      → I r.1
      → ((a : A) (s : S) → I s → I (next a s).1)
      → I (with_result failed r next).1
  with_result_keeps failed (err e, s) next h k = h
  with_result_keeps failed (ok a, s) next h k = k a s h
