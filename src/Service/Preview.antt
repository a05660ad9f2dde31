-- ===== src/Service/Preview.antt =====
-- internal/api/http/rules.go: `Test` over internal/storage/postgres, against `Assign` with the rule saved.
mod Saved
mod Adds
use maga.Base.{
  ◌≡◌, refl, ap, sym, ◌∙◌, ℤ, Bool, true, false, List, [], ◌∷◌, ◌++◌, none, some, Str, is_empty,
  is_some, if◌then◌else◌, Result, ok, err, Bool-cases, inl, inr,
}
use maga.Domain.{Uuid, Rule}
use maga.Assignment.{Request, persist, assign}
use maga.RuleEngine.Evaluate.{MatchResult, Panic, evaluate}
use maga.RuleEngine.Validate
use maga.RuleEngine.Validate.{validate_rule}
use maga.Storage
use maga.Storage.Clusters.{new_cluster}
use maga.Storage.Tables.{Db}
use maga.Storage.Assigning.{postgres, persist_lem}
use maga.Api
use maga.Api.Rules.{candidate, test_response}
use maga.Api.Respond.{Response, json}
use maga.Api.Dto.{RuleTestRequest, RuleTestResponse}
use maga.Service.{Outside, postgres_rules}
use maga.Service.Preview.Saved.{saved, with_rule_id, saved_evaluates}
use maga.Service.Preview.Adds.{creates_cluster, persist_clusters}

-- A response of `Test` with status 200 is that of an evaluation, and nothing has been written.
abbrev IsTested : Outside → Db → Result Panic MatchResult → Response RuleTestResponse × Db → Type 0
IsTested o db evaluated x =
    (resp : RuleTestResponse) (db' : Db)
    → x ≡ (json 200 resp, db')
    → (r : MatchResult) × (evaluated ≡ ok r)
      × (resp ≡ test_response r (creates_cluster r db))
      × (db' ≡ db)

cluster_checked :
    (o : Outside) (r : MatchResult) (db : Db)
    → Api.Rules.check_cluster o.texts o.libs o.order (postgres_rules o.libs) r db
      ≡ (json 200 (test_response r (creates_cluster r db)), db)
cluster_checked o r db = elim (Bool-cases (is_empty r.rendered_cluster_key)) [
  | inl blank ↦ rw blank refl
  | inr filled ↦ rw filled refl
]

json-injective :
    {A S : Type 0}
    → (a b : A) (s s' : S) → ◌≡◌ {A = Response A × S} (json 200 a, s) (json 200 b, s')
    → (a ≡ b) × (s ≡ s')
json-injective a b s s' h = (cc, cc)

evaluated_checked :
    (o : Outside) (db : Db) (x : Result Panic MatchResult)
    → IsTested o db x
        (Api.Rules.check_evaluated o.texts o.libs o.order (postgres_rules o.libs) x db)
evaluated_checked o db (err p) resp db' h = cc
evaluated_checked o db (ok r) resp db' h =
    let e : (json 200 (test_response r (creates_cluster r db)), db) ≡ (json 200 resp, db') =
      sym (cluster_checked o r db) ∙ h in
    let (answer, same) = json-injective (test_response r (creates_cluster r db)) resp db db' e in
    (r, refl, sym answer, sym same)

valid_checked :
    (o : Outside) (db : Db) (errs : List Validate.FieldError) (x : Result Panic MatchResult)
    → IsTested o db x (
        Api.Rules.unless_invalid o.texts o.libs o.order
          (postgres_rules o.libs)
          errs
          db
          (Api.Rules.check_evaluated o.texts o.libs o.order (postgres_rules o.libs) x db))
valid_checked o db [] x resp db' h = evaluated_checked o db x resp db' h
valid_checked o db (e ∷ errs) x resp db' h = cc

tested :
    (o : Outside) (q : RuleTestRequest) (db : Db)
    → IsTested o db
        (evaluate o.libs o.order q.hostname (candidate q ∷ []))
        (Api.Rules.test o.texts o.libs o.order (postgres_rules o.libs) (ok q) db)
unfolding Api.Rules.test
tested o q db =
    valid_checked o db
      (validate_rule o.libs o.order q.pattern q.capture_transforms q.cluster_key_template)
      (evaluate o.libs o.order q.hostname (candidate q ∷ []))

is_some-when : (b : Bool) (id : Uuid) → is_some (if b then some id else none) ≡ b
is_some-when true id = refl
is_some-when false id = refl

assigns_result :
    (o : Outside) (a : Request) (hostname : Str) (rules : List Rule) (db : Db) (r : MatchResult)
    → evaluate o.libs o.order hostname rules ≡ ok r
    → assign postgres o.libs o.order a hostname rules db ≡ persist postgres a r db
unfolding assign
assigns_result o a hostname rules db r e = rw e refl

-- What `Test` of a rule answers is what the rule does once it is saved, under whatever id, name, description
-- and priority. The test writes nothing. An assignment of the hostname with that rule alone adds a cluster
-- exactly if the test said so, with the rendered key that the test gave, and changes no other cluster; and its
-- result has the match, the captures and the key of the test.
pub test_predicts :
    (o : Outside) (q : RuleTestRequest) (db db' : Db) (resp : RuleTestResponse) (id : Uuid)
    (name description : Str) (priority : ℤ) (a : Request)
    → Api.Rules.test o.texts o.libs o.order (postgres_rules o.libs) (ok q) db ≡ (json 200 resp, db')
    → let rule = record (candidate q) {
      id = id;
      name = name;
      description = description;
      priority = priority;
    } in
      let x = assign postgres o.libs o.order a q.hostname (rule ∷ []) db in
      (db' ≡ db)
      × (x.1.clusters ≡ (
          if resp.would_create_new_cluster
          then db.clusters ++ new_cluster db.next_id resp.rendered_cluster_key ∷ []
          else db.clusters))
      × ((r : MatchResult)
          → x.0 ≡ ok r
          → (is_some r.rule_id ≡ resp.matched)
            × (r.raw_captures ≡ resp.raw_captures)
            × (r.transformed_captures ≡ resp.transformed_captures)
            × (r.rendered_cluster_key ≡ resp.rendered_cluster_key))
test_predicts o q db db' resp id name description priority a h =
    let rule = saved q id name description priority in
    let (r, evaluated, answer, same) = tested o q db resp db' h in
    let result = with_rule_id id r in
    let e = saved_evaluates o q id name description priority r evaluated in
    let persists = assigns_result o a q.hostname (rule ∷ []) db result e in
    rw (answer, persists)
      (
        same,
        persist_clusters a result db,
        λ r' done.
            let (kept, stored) =
              persist_lem a result r' db (persist postgres a result db).1
                (ap (λ y. (y, (persist postgres a result db).1)) done) in
            rw kept (is_some-when (is_some r.rule_id) id, refl, refl, refl),
      )
