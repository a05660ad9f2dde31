-- ===== src/Service/Preview/Saved.antt =====
-- internal/ruleengine/evaluate.go: an evaluation of the rule of a test, and of the same rule saved.
use maga.Base.{
  ◌≡◌, refl, ap, ◌∙◌, arith, ℤ, List, [], ◌∷◌, Option, none, some, Str, is_some, if◌then◌else◌, ok,
  >>=-eq-ok,
}
use maga.Domain.{Uuid, Rule}
use maga.RuleEngine.Evaluate.{
  MatchResult, evaluate, evaluate_match, rule_match, raw_captures_of, match_result, no_match,
  or_next,
}
use maga.Go.Libs.{Regexp}
use maga.Api.Rules.{candidate}
use maga.Api.Dto.{RuleTestRequest}
use maga.Service.{Outside}

-- The rule of a test, saved under an id, a name, a description and a priority.
abbrev pub saved : RuleTestRequest → Uuid → Str → Str → ℤ → Rule
saved q id name description priority = record (candidate q) {
  id = id;
  name = name;
  description = description;
  priority = priority;
}

-- What an evaluation gives for the same rule with an id.
abbrev pub with_rule_id : Uuid → MatchResult → MatchResult
with_rule_id id r = record r { rule_id = if is_some r.rule_id then some id else none }

module _ (o : Outside) (q : RuleTestRequest) (id : Uuid) (name description : Str)
    (priority : ℤ) where
  abbrev rule : Rule
  rule = saved q id name description priority

  saved_match :
      (re : Regexp) (m : List Str) (r : MatchResult)
      → evaluate_match o.libs o.order (candidate q) re m ≡ ok r
      → evaluate_match o.libs o.order rule re m ≡ ok (with_rule_id id r)
  unfolding evaluate_match
  saved_match re m r h =
      let (raws, captured, result) =
        >>=-eq-ok (raw_captures_of re.subexp_names m)
          (λ raws. ok (match_result o.libs o.order (candidate q) raws)) h in
      let same : match_result o.libs o.order (candidate q) raws ≡ r = ground arith in
      rw (captured, ← same) refl

  saved_next :
      (x : Option (Regexp × List Str)) (r : MatchResult)
      → or_next (evaluate_match o.libs o.order (candidate q)) (ok no_match) x ≡ ok r
      → or_next (evaluate_match o.libs o.order rule) (ok no_match) x ≡ ok (with_rule_id id r)
  saved_next none r h = let same : no_match ≡ r = ground arith in rw (← same) refl
  saved_next (some (re, m)) r h = saved_match re m r h

  saved_rule_match : rule_match o.libs q.hostname rule ≡ rule_match o.libs q.hostname (candidate q)
  unfolding rule_match
  saved_rule_match = refl

  pub saved_evaluates :
      (r : MatchResult)
      → evaluate o.libs o.order q.hostname (candidate q ∷ []) ≡ ok r
      → evaluate o.libs o.order q.hostname (rule ∷ []) ≡ ok (with_rule_id id r)
  unfolding evaluate
  saved_evaluates r h =
      ap (or_next (evaluate_match o.libs o.order rule) (ok no_match)) saved_rule_match
      ∙ saved_next (rule_match o.libs q.hostname (candidate q)) r h
