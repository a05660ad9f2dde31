-- ===== src/Service/Scanning.antt =====
-- cmd/apiserver/main.go: the orchestrator over internal/snmp and internal/storage/postgres.
pub mod Ended
pub mod Completes
pub mod Created
pub mod Stuck
pub mod JobsReached
use maga.Base.{
  ◌≡◌, true, if◌then◌else◌, codes, Bool-cases, inl, inr, ℕ, Bool, List, Option, none, some, Str,
  Result, ok, err,
}
use maga.Domain.{Uuid, Rule, RepoError, other, TriggerSource}
use maga.Assignment.{Action, AssignError, Repos, assign}
use maga.Assignment.Keeps.{assign_keeps}
use maga.RuleEngine.Evaluate.{MatchResult}
use maga.Discovery.Orchestrator.{
  Context, of_job, background, JobStatus, Deps, DiscoveryJobResult, SnmpError, timeout, failure,
}
use maga.Discovery.Orchestrator.Keeps.{ScansKeep}
use maga.Snmp.{Gosnmp, ClientError, timed_out, get_identity}
use maga.Storage
use maga.Storage.Tables.{Db}
use maga.Storage.Jobs.{JobDb}
use maga.Storage.Assigning.{postgres}
use maga.Service.{Outside}

-- The tables, those of the jobs, and the network, with the state of the job's context.
pub record World (N : Type 0) : Type 0 where
  pub db : Db
  pub jobs : JobDb
  pub network : N

-- What a scan takes from outside besides: gosnmp, the texts of the errors of the client, the clock, whether the
-- context is cancelled, what passes there until a call is made, and the size of the pool.
pub record Scanner (N : Type 0) : Type 0 where
  pub gosnmp : Gosnmp N
  pub client_text : ClientError → Str
  pub now : JobDb → ℕ
  pub is_cancelled : N → Bool
  pub elapse : N → N
  pub concurrency : ℕ

-- `errors.Is(err, snmp.ErrTimeout)`
abbrev snmp_error : (ClientError → Str) → ClientError → SnmpError
snmp_error text (timed_out target) = timeout (text (timed_out target))
snmp_error text e = failure (text e)

abbrev or_snmp_error :
    {A : Type 0} → (ClientError → Str) → Result ClientError A → Result SnmpError A
or_snmp_error text (ok a) = ok a
or_snmp_error text (err e) = err (snmp_error text e)

-- The error of `Assign` is logged.
abbrev logged : (AssignError → Str) → Result AssignError MatchResult → Result RepoError Unit
logged text (ok r) = ok tt
logged text (err e) = err (other (text e))

abbrev host_of : Option (Str × Str) → Option Str
host_of none = none
host_of (some (host, port)) = some host

-- The error of a query whose context is cancelled.
abbrev pub context_cancelled : RepoError
context_cancelled = other (codes "context canceled")

module _ {N : Type 0} (o : Outside) (n : Scanner N) where
  abbrev pub on_db : {E A : Type 0} → (Db → Result E A × Db) → World N → Result E A × World N
  on_db f w = let r = f w.db in (r.0, record w { db = r.1 })

  abbrev on_jobs : {A : Type 0} → Action JobDb A → Action (World N) A
  on_jobs f w = let r = f w.jobs in (r.0, record w { jobs = r.1 })

  abbrev pub elapsed : World N → World N
  elapsed w = record w { network = n.elapse w.network }

  -- A query with the context of the job fails and changes nothing if that is cancelled when it is made; that it
  -- is cancelled while the database is at it is left out.
  abbrev pub in_context : {A : Type 0} → Action (World N) A → Action (World N) A
  in_context f w =
      let now = elapsed w in
      if n.is_cancelled now.network then (err context_cancelled, now) else f now

  abbrev in_background : {A : Type 0} → Action (World N) A → Action (World N) A
  in_background f w = f (elapsed w)

  abbrev in_context_of : {A : Type 0} → Context → Action (World N) A → Action (World N) A
  in_context_of of_job f = in_context f
  in_context_of background f = in_background f

  -- The repositories of `Assign`, with the context of the job.
  abbrev pub assigning_in_context : Repos (World N)
  assigning_in_context = record {
    update_assignment =
        λ id c r status. in_context (on_db (postgres.update_assignment id c r status));
    get_or_create_by_lookup_key =
        λ key. in_context (on_db (postgres.get_or_create_by_lookup_key key));
    insert_history = λ h. in_context (on_db (postgres.insert_history h));
  }

  abbrev logged_assign : Result AssignError MatchResult × World N → Result RepoError Unit × World N
  logged_assign (r, w) = (logged o.texts.assign_error r, w)

  abbrev pub set_status : Uuid → JobStatus → Str → Action (World N) Unit
  set_status id status m w = on_jobs (Storage.Jobs.update_status (n.now w.jobs) id status m) w

  abbrev pub list_rules : Action (World N) (List Rule)
  list_rules w = (ok (Storage.Rules.list_enabled_ordered w.db), w)

  -- `NewOrchestrator` of the client, the repositories and `NewService`
  abbrev pub scanning : Deps (World N)
  scanning = record {
    get_identity = λ target community version w.
        let r = get_identity n.gosnmp target community version w.network in
        (or_snmp_error n.client_text r.0, record w { network = r.1 });
    update_status = λ c id status m. in_context_of c (set_status id status m);
    insert_result = λ r. in_context (on_jobs (Storage.Jobs.insert_result r));
    upsert_discovered =
        λ host i. in_context (on_db (Storage.Elements.upsert_discovered host i.sys_name));
    list_enabled_ordered = in_context list_rules;
    assign = λ id hostname rules trigger w. logged_assign (
        assign assigning_in_context o.libs o.order
          (record { element_id = id; trigger = trigger; history_id = o.new_uuid w.db }) hostname
          rules w);
    is_cancelled = λ w. n.is_cancelled w.network;
    error_text = o.texts.repo_error;
    split_host_port = λ s. host_of (n.gosnmp.split_host_port s);
    concurrency = n.concurrency;
  }

  pub in_context_keeps :
      {A : Type 0} (I : World N → Type 0) (f : Action (World N) A) (w : World N)
      → I (elapsed w)
      → (I (elapsed w) → I (f (elapsed w)).1)
      → I (in_context f w).1
  in_context_keeps I f w h k = elim (Bool-cases (n.is_cancelled (n.elapse w.network))) [
    | inl gone ↦ rw gone h
    | inr on ↦ rw on (k h)
  ]

  -- What neither the tables nor the network show, a statement on the tables keeps.
  pub assign_keeps_world :
      (I : World N → Type 0)
      → ((w : World N) → I w → I (elapsed w))
      → ((w : World N) (db : Db) → I w → I (record w { db = db }))
      → (id : Uuid) (hostname : Str) (rules : List Rule) (trigger : TriggerSource) (w : World N)
      → I w
      → I (scanning.assign id hostname rules trigger w).1
  assign_keeps_world I later other_db id hostname rules trigger w =
      assign_keeps assigning_in_context I
        (record {
          writes = record {
            updates = λ e c a status x h.
                in_context_keeps I (on_db (postgres.update_assignment e c a status)) x (later x h)
                  (λ k. other_db (elapsed x) _ k);
            inserts = λ e x h.
                in_context_keeps I (on_db (postgres.insert_history e)) x (later x h)
                  (λ k. other_db (elapsed x) _ k);
          };
          upserts = λ key x h.
              in_context_keeps I (on_db (postgres.get_or_create_by_lookup_key key)) x (later x h)
                (λ k. other_db (elapsed x) _ k);
        })
        o.libs o.order (record { element_id = id; trigger = trigger; history_id = o.new_uuid w.db })
        hostname rules w

  -- What a run keeps beside the elements and the rules.
  pub scanning_keeps :
      (I : World N → Type 0)
      → ((w : World N) → I w → I (elapsed w))
      → ((w : World N) (db : Db) → I w → I (record w { db = db }))
      → ((t c v : Str) (w : World N) → I w → I (scanning.get_identity t c v w).1)
      → ((r : DiscoveryJobResult) (w : World N)
          → I w
          → I (record w { jobs = (Storage.Jobs.insert_result r w.jobs).1 }))
      → ScansKeep scanning I
  scanning_keeps I later other_db fetches inserts = record {
    fetches = fetches;
    inserts = λ r x h.
        in_context_keeps I (on_jobs (Storage.Jobs.insert_result r)) x (later x h)
          (λ k. inserts r (elapsed x) k);
    upserts = λ host i x h.
        in_context_keeps I (on_db (Storage.Elements.upsert_discovered host i.sys_name)) x
          (later x h) (λ k. other_db (elapsed x) _ k);
    assigns = assign_keeps_world I later other_db;
  }

-- A context that is cancelled stays so.
pub record CancelLasts {N : Type 0} (n : Scanner N) : Type 0 where
  pub elapses : (x : N) → n.is_cancelled x ≡ true → n.is_cancelled (n.elapse x) ≡ true
  pub fetches :
      (t c v : Str) (x : N)
      → n.is_cancelled x ≡ true
      → n.is_cancelled (get_identity n.gosnmp t c v x).1 ≡ true
