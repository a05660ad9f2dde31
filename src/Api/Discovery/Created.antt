-- ===== src/Api/Discovery/Created.antt =====
-- internal/api/http/discovery.go: what `Create` has done where it answers 202.
use maga.Base.{
  ◌≡◌, refl, sym, ap, ◌∙◌, List, ◌∷◌, Str, is_empty, Result, ok, err, Bool-cases, inl, inr, ℕ,
}
use maga.Go.Net.{Ipv6}
use maga.Domain.{RepoError}
use maga.Discovery.Targets.{TargetError, expand_targets}
use maga.Api.Respond.{Response, Texts, json, error, ErrorBody}
use maga.Api.Discovery.{
  Runs, NewJob, JobRepos, create, answer_created, job_response, create_checked, create_expanded,
  is_version, version_or_default,
}
use maga.Storage.Jobs.{JobRow}
use maga.Api.Dto.{DiscoveryJobRequest, DiscoveryJobResponse}

accepted-injective :
    {A S : Type 0} (a b : A) (s s' : S) (g g' : Runs)
    → ◌≡◌ {A = Response A × S × Runs} (json 202 a, s, g) (json 202 b, s', g')
    → (a ≡ b) × (s ≡ s')
accepted-injective a b s s' g g' h = (cc, cc)

not_accepted :
    {A S : Type 0} (n : ℕ) (e : ErrorBody) (b : A) (s s' : S) (g g' : Runs)
    → ◌≡◌ {A = Response A × S × Runs} (error n e, s, g) (json 202 b, s', g')
    → ⊥
not_accepted n e b s s' g g' h = cc

module _ {S : Type 0} (t : Texts) (v6 : Ipv6) (repos : JobRepos S) (s s1 : S) (g g1 : Runs)
    (answer : DiscoveryJobResponse) where
  abbrev Accepted : Response DiscoveryJobResponse × S × Runs → Type 0
  Accepted x = ◌≡◌ {A = Response DiscoveryJobResponse × S × Runs} x (json 202 answer, s1, g1)

  -- The row of a job for the targets is made, and the answer is about it.
  abbrev pub Creates : List Str → Type 0
  Creates targets =
      (new : NewJob) × (row : JobRow) × (new.target_ips ≡ targets)
      × (repos.create new s ≡ (ok row, s1))
      × (answer ≡ job_response t v6 repos row)

  job-Creates :
      (new : NewJob) (r : Result RepoError JobRow × S)
      → repos.create new s ≡ r
      → Accepted (answer_created t v6 repos g r)
      → Creates new.target_ips
  job-Creates new (err e, s') at h = absurd (not_accepted _ _ answer s' s1 g g1 h)
  job-Creates new (ok row, s') at h =
      let (same, states) =
        accepted-injective (job_response t v6 repos row) answer s' s1
          (record g { started = row.id ∷ g.started }) g1 h in
      (new, row, refl, at ∙ ap (λ x. (ok row, x)) states, sym same)

  checked-Creates :
      (q : DiscoveryJobRequest) (targets : List Str)
      → Accepted (create_checked t v6 repos q targets s g)
      → Creates targets
  checked-Creates q targets h = elim (Bool-cases (is_version (version_or_default q.snmp_version))) [
    | inr bad ↦ let stop = rw bad at h in absurd (not_accepted _ _ answer s s1 g g1 stop)
    | inl good ↦ elim (Bool-cases (is_empty q.snmp_community)) [
      | inl blank ↦
          let stop = rw (good, blank) at h in absurd (not_accepted _ _ answer s s1 g g1 stop)
      | inr filled ↦ let go = rw (good, filled) at h in job-Creates _ _ refl go
    ]
  ]

  expanded-Creates :
      (q : DiscoveryJobRequest) (x : Result TargetError (List Str))
      → Accepted (create_expanded t v6 repos q x s g)
      → (targets : List Str) × (x ≡ ok targets) × Creates targets
  expanded-Creates q (err e) h = absurd (not_accepted _ _ answer s s1 g g1 h)
  expanded-Creates q (ok targets) h = (targets, refl, checked-Creates q targets h)

  -- Where `Create` answers 202, it has expanded the targets of the request, and has made a row of a job for them.
  pub create-Creates :
      (body : Result Str DiscoveryJobRequest)
      → Accepted (create t v6 repos body s g)
      → (q : DiscoveryJobRequest) × (targets : List Str) × (body ≡ ok q)
        × (expand_targets v6 q.targets ≡ ok targets)
        × Creates targets
  unfolding create
  create-Creates (err m) h = absurd (not_accepted _ _ answer s s1 g g1 h)
  create-Creates (ok q) h =
      let (targets, expanded, made) = expanded-Creates q (expand_targets v6 q.targets) h in
      (q, targets, refl, expanded, made)
