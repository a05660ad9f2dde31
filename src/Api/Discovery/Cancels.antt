-- ===== src/Api/Discovery/Cancels.antt =====
-- internal/api/http/discovery.go: `Cancel` beside the goroutine that `Create` has started.
use maga.Base.{
  ◌≡◌, refl, ap, sym, ◌∙◌, arith, true, false, List, ◌∷◌, some, Str, codes, ==_refl, Result, ok,
  err, Bool-cases, inl, inr, ℕ, is_empty,
}
use maga.Go.Net.{Ipv6}
use maga.Domain.{Uuid, RepoError}
use maga.Api.Respond.{Response, Texts, json, error, ErrorBody}
use maga.Api.Discovery.{
  Runs, JobRepos, has_id, register, cancel, create, answer_created, job_response, create_checked,
  create_expanded, is_version, version_or_default,
}
use maga.Discovery.Targets.{TargetError, expand_targets}
use maga.Storage.Jobs.{JobRow}
use maga.Api.Dto.{DiscoveryJobRequest, DiscoveryJobResponse}

triple-injective :
    {A S : Type 0}
    → (a b : A) (s s' : S) (g g' : Runs)
    → ◌≡◌ {A = Response A × S × Runs} (json 202 a, s, g) (json 202 b, s', g')
    → (a ≡ b) × (g ≡ g')
triple-injective a b s s' g g' h = (cc, cc)

module _ {S : Type 0} (t : Texts) (v6 : Ipv6) (repos : JobRepos S)
    (reads : (x : Uuid) → t.parse_uuid (t.format_uuid x) ≡ some x) where
  -- The goroutine of a job is started where the response is the job.
  abbrev StartsIts : Runs → Response DiscoveryJobResponse × S × Runs → Type 0
  StartsIts g x =
      (s1 : S) (g1 : Runs) (answer : DiscoveryJobResponse)
      → x ≡ (json 202 answer, s1, g1)
      → (id : Uuid) × (answer.id ≡ t.format_uuid id) × (g1 ≡ record g { started = id ∷ g.started })

  refused_starts : (e : ErrorBody) (s : S) (g : Runs) (n : ℕ) → StartsIts g (error n e, s, g)
  refused_starts e s g n s1 g1 answer h = cc

  job_starts :
      (x : Result RepoError JobRow × S) (g : Runs) → StartsIts g (answer_created t v6 repos g x)
  job_starts (err e, s) g s1 g1 answer h = cc
  job_starts (ok job, s) g s1 g1 answer h =
      let (same, runs) : (job_response t v6 repos job ≡ answer)
          × (record g { started = job.id ∷ g.started } ≡ g1) =
        triple-injective (job_response t v6 repos job) answer s s1
          (record g { started = job.id ∷ g.started }) g1 h in
      (job.id, sym (ap (λ (r : DiscoveryJobResponse). r.id) same), sym runs)

  checked_starts :
      (q : DiscoveryJobRequest) (targets : List Str) (s : S) (g : Runs)
      → StartsIts g (create_checked t v6 repos q targets s g)
  checked_starts q targets s g s1 g1 answer h =
      elim (Bool-cases (is_version (version_or_default q.snmp_version))) [
        | inr bad ↦ let stop = rw bad at h in refused_starts _ s g 400 s1 g1 answer stop
        | inl good ↦ elim (Bool-cases (is_empty q.snmp_community)) [
          | inl blank ↦
              let stop = rw (good, blank) at h in refused_starts _ s g 400 s1 g1 answer stop
          | inr filled ↦ let go = rw (good, filled) at h in job_starts _ g s1 g1 answer go
        ]
      ]

  expanded_starts :
      (q : DiscoveryJobRequest) (x : Result TargetError (List Str)) (s : S) (g : Runs)
      → StartsIts g (create_expanded t v6 repos q x s g)
  expanded_starts q (err e) s g s1 g1 answer h = cc
  expanded_starts q (ok targets) s g s1 g1 answer h = checked_starts q targets s g s1 g1 answer h

  created_started :
      (q : DiscoveryJobRequest) (s : S) (g : Runs) → StartsIts g (create t v6 repos (ok q) s g)
  unfolding create
  created_started q s g = expanded_starts q (expand_targets v6 q.targets) s g

  same_id : (x y : Uuid) → t.format_uuid x ≡ t.format_uuid y → x ≡ y
  same_id x y h = let e : some x ≡ some y = sym (reads x) ∙ ap t.parse_uuid h ∙ reads y in cc

  not_running :
      (raw : Str) (id : Uuid) (s : S) (g : Runs) (job : JobRow)
      → t.parse_uuid raw ≡ some id
      → (repos.get id s).0 ≡ ok job
      → has_id id g.registered ≡ false
      → cancel t v6 repos raw s g ≡ (json 200 (codes "not_running"), (repos.get id s).1, g)
  unfolding cancel
  not_running raw id s g job parsed found waiting = ground arith

  starts : (id : Uuid) (g : Runs) → has_id id (id ∷ g.started) ≡ true
  unfolding has_id
  starts id g = rw (==_refl id) refl

  registers :
      (id : Uuid) (g : Runs)
      → has_id id g.started ≡ true
      → (has_id id (register id g).registered ≡ true) × ((register id g).cancelled ≡ g.cancelled)
  unfolding register has_id
  registers id g waiting = rw (waiting) (rw (==_refl id) refl, refl)

  -- A `Cancel` with the id of the response of `Create`, which comes before the goroutine has registered the job,
  -- is lost: it finds the job and answers "not_running", and the goroutine then registers the job and runs it
  -- with a context that nothing has cancelled. The id has no other goroutine, and `uuid.Parse` reads what
  -- `String` writes.
  pub lost_cancel :
      (q : DiscoveryJobRequest) (s s1 : S) (g g1 : Runs) (answer : DiscoveryJobResponse) (id : Uuid)
      (job : JobRow)
      → create t v6 repos (ok q) s g ≡ (json 202 answer, s1, g1)
      → answer.id ≡ t.format_uuid id
      → (repos.get id s1).0 ≡ ok job
      → has_id id g.registered ≡ false
      → has_id id g.cancelled ≡ false
      → let (response, s2, g2) = cancel t v6 repos answer.id s1 g1 in
        (response ≡ json 200 (codes "not_running"))
        × (has_id id (register id g2).registered ≡ true)
        × (has_id id (register id g2).cancelled ≡ false)
  lost_cancel q s s1 g g1 answer id job made named found fresh running =
      let (made_id, written, runs) = created_started q s g s1 g1 answer made in
      let same : made_id ≡ id = same_id made_id id (sym written ∙ named) in
      let go : g1 ≡ record g { started = id ∷ g.started } =
        runs ∙ ap (λ k. record g { started = k ∷ g.started }) same in
      let (listed, kept) = registers id g1 (rw go (starts id g)) in
      let parsed : t.parse_uuid answer.id ≡ some id = ap t.parse_uuid named ∙ reads id in
      rw (not_running answer.id id s1 g1 job parsed found (rw go fresh))
        (refl, listed, rw kept (rw go running))
