-- ===== src/Service/Bulk.antt =====
-- internal/api/http/elements.go: `RedistributeBulk` over internal/assignment and internal/storage/postgres.
use maga.Base.{
  append-nil, append_assoc, if◌then◌else◌, ◌++◌, ℕ, ◌+◌, ◌≡◌, refl, ap, sym, ◌∙◌, arith, true, ◌&&◌,
  ==_refl, List, [], ◌∷◌, length, Option, none, Str, ok, All, All-middle, In, In-All, All-In,
  Bool-cases, inl, inr,
}
use native.Mathlib.Nat.{zero-add}
use maga.Go.Libs.{MatchesNames}
use maga.Domain.{Uuid, Rule, NetworkElement, AssignmentStatus, manual_redistribute_bulk}
use maga.Assignment.{AssignmentHistory, Request, assign}
use maga.Assignment.Keeps.{ReposKeep, assign_keeps}
use maga.RuleEngine.Evaluate.{MatchResult, evaluate, no_match}
use maga.RuleEngine.Evaluate.Named.{evaluate_total}
use maga.RuleEngine.Evaluate.Selection.{evaluate_first}
use maga.Storage
use maga.Storage.Tables.{Db, has_rule, rule_exists, cluster_exists}
use maga.Storage.Elements.{has_element}
use maga.Storage.Elements.Listing.{Sql, no_filter, selected, selects}
use maga.Storage.Assigning.{postgres, insert_history, assign_lem}
use maga.Storage.Assigning.Succeeds.{assign_succeeds, has_element-assign_rows, upsert_keeps}
use maga.Storage.RuleRows.{All-list_enabled_ordered}
use maga.Api
use maga.Api.Respond.{json}
use maga.Service.{Outside, postgres_elements}
use maga.Service.Evaluated.{evaluate_match-rule_id}

-- The rows that an assignment refers to are still there.
record KeepsRows (old new : Db) : Type 0 where
  elements_stay : (k : Uuid) → has_element k old.elements ≡ true → has_element k new.elements ≡ true
  same_rules : new.rules ≡ old.rules

keeps_update :
    (old : Db) (id : Uuid) (c r : Option Uuid) (status : AssignmentStatus) (db : Db)
    → KeepsRows old db
    → KeepsRows old (Storage.Elements.update_assignment id c r status db).1
unfolding Storage.Elements.update_assignment
keeps_update old id c r status db h = elim (Bool-cases (has_element id db.elements)) [
  | inr missing ↦ rw missing h
  | inl there ↦ elim (Bool-cases (cluster_exists c db.clusters && rule_exists r db.rules)) [
    | inr dangling ↦ rw (there, dangling) h
    | inl refs ↦
        rw (there, refs)
          (record {
            elements_stay =
                λ k e. has_element-assign_rows k id c r status db.elements ∙ h.elements_stay k e;
            same_rules = h.same_rules;
          })
  ]
]

keeps_insert :
    (old : Db) (e : AssignmentHistory) (db : Db)
    → KeepsRows old db
    → KeepsRows old (insert_history e db).1
unfolding insert_history
keeps_insert old e db h =
    elim (Bool-cases (
      has_element e.element_id db.elements
      && cluster_exists e.cluster_id db.clusters
      && rule_exists e.rule_id db.rules)) [
        | inl refs ↦ rw refs (record { elements_stay = h.elements_stay; same_rules = h.same_rules })
        | inr dangling ↦ rw dangling h
      ]

postgres_keeps : (old : Db) → ReposKeep postgres (KeepsRows old)
postgres_keeps old = record {
  writes = record { updates = keeps_update old; inserts = keeps_insert old };
  upserts = λ key db h.
      let (elements, rules) = upsert_keeps key db in
      record {
        elements_stay = λ k e. ap (has_element k) elements ∙ h.elements_stay k e;
        same_rules = rules ∙ h.same_rules;
      };
}

-- The rows of a table are in it.
rows_are_there :
    (all rs : List Rule)
    → ((k : Uuid) → has_rule k rs ≡ true → has_rule k all ≡ true)
    → All (λ r. has_rule r.id all ≡ true) rs
unfolding has_rule
rows_are_there all [] h = tt
rows_are_there all (r ∷ rs) h =
    (h r.id (rw (==_refl r.id) refl), rows_are_there all rs (λ k m. h k (ground (arith, m))))

selected_are_there :
    (sql : Sql) (all es : List NetworkElement)
    → ((k : Uuid) → has_element k es ≡ true → has_element k all ≡ true)
    → All (λ e. has_element e.id all ≡ true) (selected sql no_filter es)
unfolding has_element selected
selected_are_there sql all [] h = tt
selected_are_there sql all (e ∷ es) h =
    let more = selected_are_there sql all es (λ k m. h k (ground (arith, m))) in
    elim (Bool-cases (selects sql no_filter e)) [
      | inl chosen ↦ rw chosen (h e.id (rw (==_refl e.id) refl), more)
      | inr passed ↦ rw passed more
    ]

-- The rule that `Evaluate` takes of the stored ones is stored.
evaluated_rule_exists :
    (o : Outside) (db : Db) (hostname : Str) (r : MatchResult)
    → evaluate o.libs o.order hostname (Storage.Rules.list_enabled_ordered db) ≡ ok r
    → rule_exists r.rule_id db.rules ≡ true
evaluated_rule_exists o db hostname r h =
    let P = λ (x : Rule). has_rule x.id db.rules ≡ true in
    elim (evaluate_first o.libs o.order hostname (Storage.Rules.list_enabled_ordered db)) [
      | inr (none_applies, result) ↦ let same : no_match ≡ r = ground arith in rw (← same) refl
      | inl (before, rule, after, re, m, split, none_before, applies, result) ↦
          let stored =
            All-list_enabled_ordered P db (rows_are_there db.rules db.rules (λ k m. m)) in
          let there : P rule = All-middle P before rule after (rw split at stored) in
          rw (evaluate_match-rule_id o rule re m r (sym result ∙ h)) there
    ]

-- The loop over the targets counts each of them.
assign_all_succeeds :
    (o : Outside) (old db : Db) (es : List NetworkElement) (n : ℕ)
    → MatchesNames o.libs
    → KeepsRows old db
    → All (λ e. has_element e.id old.elements ≡ true) es
    → (Api.Elements.assign_all o.texts
        (postgres_elements o.libs o.order o.sql o.new_uuid)
        (Storage.Rules.list_enabled_ordered old)
        es
        n
        db).0
      ≡ n + length es
unfolding Api.Elements.assign_all
assign_all_succeeds o old db [] n law k h = omega arith
assign_all_succeeds o old db (e ∷ es) n law k (there, h) =
    let rules = Storage.Rules.list_enabled_ordered old in
    let q : Request = record {
      element_id = e.id;
      trigger = manual_redistribute_bulk;
      history_id = o.new_uuid db;
    } in
    let (r, result) = evaluate_total o.libs o.order e.sys_name rules law in
    let done =
      assign_succeeds o.libs o.order q e.sys_name rules db r result (k.elements_stay e.id there) (
        ap (rule_exists r.rule_id) k.same_rules
        ∙ evaluated_rule_exists o old e.sys_name r result) in
    let kept =
      assign_keeps postgres (KeepsRows old) (postgres_keeps old) o.libs o.order q e.sys_name rules
        db k in
    let repos = postgres_elements o.libs o.order o.sql o.new_uuid in
    let db' = (assign postgres o.libs o.order q e.sys_name rules db).1 in
    ap
      (λ c.
        (Api.Elements.assign_all o.texts repos rules es (Api.Elements.add_success o.texts repos c n)
          db').0)
      done
    ∙ assign_all_succeeds o old db' es (n + 1) law kept h
    ∙ omega arith

-- The entries that a bulk redistribution writes: one for each of the elements, in their order.
abbrev pub BulkEntries : List AssignmentHistory → List NetworkElement → Type 0
BulkEntries [] [] = Unit
BulkEntries (h ∷ hs) (e ∷ es) =
    (h.element_id ≡ e.id) × (h.trigger_source ≡ manual_redistribute_bulk) × BulkEntries hs es
BulkEntries [] (e ∷ es) = ⊥
BulkEntries (h ∷ hs) [] = ⊥

-- The loop over the targets writes an entry of the history for each of them.
assign_all_records :
    (o : Outside) (old db : Db) (es : List NetworkElement) (n : ℕ)
    → MatchesNames o.libs
    → KeepsRows old db
    → All (λ e. has_element e.id old.elements ≡ true) es
    → (hs : List AssignmentHistory) × BulkEntries hs es
      × ((Api.Elements.assign_all o.texts
            (postgres_elements o.libs o.order o.sql o.new_uuid)
            (Storage.Rules.list_enabled_ordered old)
            es
            n
            db).1.history
          ≡ db.history ++ hs)
unfolding Api.Elements.assign_all
assign_all_records o old db [] n law k h = ([], tt, sym (append-nil db.history))
assign_all_records o old db (e ∷ es) n law k (there, h) =
    let rules = Storage.Rules.list_enabled_ordered old in
    let q : Request = record {
      element_id = e.id;
      trigger = manual_redistribute_bulk;
      history_id = o.new_uuid db;
    } in
    let x = assign postgres o.libs o.order q e.sys_name rules db in
    let (r, result) = evaluate_total o.libs o.order e.sys_name rules law in
    let done =
      assign_succeeds o.libs o.order q e.sys_name rules db r result (k.elements_stay e.id there) (
        ap (rule_exists r.rule_id) k.same_rules
        ∙ evaluated_rule_exists o old e.sys_name r result) in
    let (_, (c, entry, says, history, _)) =
      assign_lem o.libs o.order q e.sys_name rules db x.1 r (ap (λ y. (y, x.1)) done) in
    let kept =
      assign_keeps postgres (KeepsRows old) (postgres_keeps old) o.libs o.order q e.sys_name rules
        db k in
    let repos = postgres_elements o.libs o.order o.sql o.new_uuid in
    let (hs, of_rest, rest) =
      assign_all_records o old x.1 es (Api.Elements.add_success o.texts repos x.0 n) law kept h in
    (
      entry ∷ hs,
      (says.1, says.8, of_rest),
      rest ∙ ap (λ front. front ++ hs) history ∙ append_assoc db.history (entry ∷ []) hs,
    )

-- The elements that are not deleted.
pub undeleted : List NetworkElement → List NetworkElement
undeleted [] = []
undeleted (e ∷ es) = let rest = undeleted es in if e.deleted then rest else e ∷ rest

selected-undeleted :
    (sql : Sql) (es : List NetworkElement) → selected sql no_filter es ≡ undeleted es
unfolding selected undeleted
selected-undeleted sql [] = refl
selected-undeleted sql (e ∷ es) = elim (Bool-cases e.deleted) [
  | inl gone ↦ rw (gone, selected-undeleted sql es) refl
  | inr there ↦ rw (there, selected-undeleted sql es) refl
]

-- A bulk redistribution with no body reassigns every element that is not deleted, in the order of the listing, and
-- each one succeeds: the response counts as many as there are, and the history has gained one entry for each, in
-- that order and with the bulk trigger, and no other. `ORDER BY` adds no row, and the matches of `regexp` have the
-- lengths that it documents.
pub redistribute_bulk_succeeds :
    (o : Outside) (db : Db)
    → MatchesNames o.libs
    → ((e : NetworkElement) (es : List NetworkElement) → In e (o.sql.newest_first es) → In e es)
    → let targets = o.sql.newest_first (undeleted db.elements) in
      let r =
        Api.Elements.redistribute_bulk o.texts
          (postgres_elements o.libs o.order o.sql o.new_uuid)
          none
          db in
      (r.0 ≡ json 200 (record { total = length targets; succeeded = length targets }))
      × (hs : List AssignmentHistory) × BulkEntries hs targets
      × (r.1.history ≡ db.history ++ hs)
unfolding Api.Elements.redistribute_bulk Storage.Elements.Listing.list
redistribute_bulk_succeeds o db law rows =
    let targets = o.sql.newest_first (selected o.sql no_filter db.elements) in
    let there = selected_are_there o.sql db.elements db.elements (λ k m. m) in
    let present : All (λ e. has_element e.id db.elements ≡ true) targets =
      In-All (λ e. has_element e.id db.elements ≡ true) targets
        λ e m.
          All-In (λ e. has_element e.id db.elements ≡ true)
            (rows e (selected o.sql no_filter db.elements) m) there in
    let same : KeepsRows db db = record { elements_stay = λ k m. m; same_rules = refl } in
    let counts =
      assign_all_succeeds o db db targets 0 law same present ∙ zero-add (length targets) in
    let (hs, entries, grown) = assign_all_records o db db targets 0 law same present in
    rw (← selected-undeleted o.sql db.elements) (
      ap (λ n. json 200 (record { total = length targets; succeeded = n })) counts,
      hs,
      entries,
      grown,
    )
