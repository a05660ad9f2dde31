-- ===== src/Api/Respond.antt =====
-- internal/api/http/respond.go, and what the handlers share.
pub mod Keeps
use maga.Base.{ℕ, List, [], ◌∷◌, Option, none, some, Str, codes, Result, ok, err}
use maga.Domain.{Uuid, RepoError, not_found, cluster_not_empty, other}
use maga.Assignment.{AssignError}
use maga.Discovery.Targets.{TargetError}
use maga.RuleEngine.Validate

-- `FieldError`: the field and the message are what this is made of.
pub data FieldError : Type 0 where
  rule_field : Validate.FieldError → FieldError
  targets_field : TargetError → FieldError
  snmp_version_field snmp_community_field : FieldError

-- `errorBody`
pub record ErrorBody : Type 0 where
  pub code : Str
  pub message : Str
  pub fields : List FieldError

-- A response: JSON, an error envelope, or a status alone.
pub data Response (B : Type 0) : Type 0 where
  json : ℕ → B → Response B
  error : ℕ → ErrorBody → Response B
  no_content : Response B

-- `uuid.Parse`, `UUID.String`, and `err.Error()` of the errors that a handler passes on.
pub record Texts : Type 0 where
  pub parse_uuid : Str → Option Uuid
  pub format_uuid : Uuid → Str
  pub repo_error : RepoError → Str
  pub assign_error : AssignError → Str

module _ {B : Type 0} where
  abbrev pub write_error : ℕ → Str → Str → List FieldError → Response B
  write_error status code message fields =
      error status (record { code = code; message = message; fields = fields })

  abbrev pub write_validation_error : List FieldError → Response B
  write_validation_error fields =
      write_error 400 (codes "validation_failed") (codes "one or more fields are invalid") fields

  abbrev pub write_not_found : Str → Response B
  write_not_found message = write_error 404 (codes "not_found") message []

  abbrev pub write_internal_error : Str → Response B
  write_internal_error message = write_error 500 (codes "internal_error") message []

  abbrev pub invalid_id : Response B
  invalid_id = write_error 400 (codes "invalid_id") (codes "id must be a UUID") []

  -- What follows an error of a repository: `domain.ErrNotFound` has a response of its own.
  abbrev pub not_found_or_internal : Texts → Str → RepoError → Response B
  not_found_or_internal t message not_found = write_not_found message
  not_found_or_internal t message cluster_not_empty =
      write_internal_error (t.repo_error cluster_not_empty)
  not_found_or_internal t message (other m) = write_internal_error (t.repo_error (other m))

  abbrev pub internal : Texts → RepoError → Response B
  internal t e = write_internal_error (t.repo_error e)

  module _ {S : Type 0} where
    -- The early returns of a handler: a malformed id, a malformed body, a repository's error.
    abbrev pub with_id_or : Response B → Texts → Str → S → (Uuid → Response B × S) → Response B × S
    with_id_or bad t raw s next = elim (t.parse_uuid raw) [ none ↦ (bad, s) | some id ↦ next id ]

    abbrev pub with_id : Texts → Str → S → (Uuid → Response B × S) → Response B × S
    with_id t raw s next = with_id_or invalid_id t raw s next

    abbrev pub with_body : {A : Type 0} → Result Str A → S → (A → Response B × S) → Response B × S
    with_body (err m) s next = (write_error 400 (codes "invalid_body") m [], s)
    with_body (ok a) s next = next a

    abbrev pub with_result :
        {A : Type 0}
        → (RepoError → Response B)
        → Result RepoError A × S
        → (A → S → Response B × S)
        → Response B × S
    with_result failed (err e, s) next = (failed e, s)
    with_result failed (ok a, s) next = next a s
