-- ===== src/Service/Evaluated.antt =====
-- internal/assignment over the rules that the handlers have stored: what `Evaluate` makes of them.
use maga.Base.{
  ◌≡◌, ◌∙◌, true, List, ◌∷◌, ◌++◌, some, Str, str_mem, is_some, lookup, IsIteration, >>=-eq-ok, ℤ,
  All-middle, ok, All, inl, inr, ◌⊎◌,
}
use maga.Domain.{Uuid, Rule}
use maga.Go.Libs.{Regexp, MatchesNames}
use maga.RuleEngine.Evaluate.{
  MatchResult, evaluate, no_match, evaluate_match, raw_captures_of, match_result,
}
use maga.RuleEngine.Evaluate.Selection.{AppliesNot, evaluate_first}
use maga.RuleEngine.Template.{extract_template_tokens}
use maga.RuleEngine.Validate.Sound.{validated_tokens_have_values}
use maga.Storage
use maga.Storage.Tables.{Db}
use maga.Storage.RuleRows.{All-create, All-update, All-list_enabled_ordered}
use maga.Service.{Outside, Reachable}
use maga.Service.Reached.{IsValid, reached_keeps}
use maga.Service.RuleTable.{rules_keep}

abbrev RulesAreValid : Outside → Db → Type 0
RulesAreValid o db = All (IsValid o) db.rules

-- No call stores a rule that `ValidateRule` has something to report of.
pub reached_rules_validated : (o : Outside) (db : Db) → Reachable o db → All (IsValid o) db.rules
reached_rules_validated o db r =
    let P = IsValid o in
    let same_priority = λ (x : Rule) (p : ℤ) (v : P x). v in
    let same_id = λ (x : Rule) (id : Uuid) (v : P x). v in
    reached_keeps o (RulesAreValid o)
      (rules_keep o P same_priority same_id
        (λ rule x v d h. All-create P same_priority same_id o.libs rule x v h)
        (λ rule x v d h. All-update P same_priority same_id o.libs rule x v h))
      tt r

pub evaluate_match-rule_id :
    (o : Outside) (rule : Rule) (re : Regexp) (m : List Str) (r : MatchResult)
    → evaluate_match o.libs o.order rule re m ≡ ok r
    → r.rule_id ≡ some rule.id
unfolding evaluate_match
evaluate_match-rule_id o rule re m r h =
    let (raws, captured, result) =
      >>=-eq-ok (raw_captures_of re.subexp_names m)
        (λ raws. ok (match_result o.libs o.order rule raws)) h in
    cc

-- Behind any sequence of calls, `Evaluate` of the stored rules does one of two things. Either it takes the
-- first rule of `ListEnabledOrdered` that applies to the hostname, and each token of that rule's template has a
-- value among the transformed captures, so none renders as empty for want of a capture; or none of them
-- applies, and the result has no rule and an empty key. The matches of `regexp` have the lengths that it
-- documents, and the order of the maps is one of their keys.
pub reached_evaluate :
    (o : Outside) (db : Db) (hostname : Str)
    → MatchesNames o.libs
    → IsIteration o.order
    → Reachable o db
    → ((before : List Rule) × (rule : Rule) × (after : List Rule) × (r : MatchResult)
        × (Storage.Rules.list_enabled_ordered db ≡ before ++ rule ∷ after)
        × All (AppliesNot o.libs hostname) before
        × (evaluate o.libs o.order hostname (Storage.Rules.list_enabled_ordered db) ≡ ok r)
        × (r.rule_id ≡ some rule.id)
        × ((k : Str)
            → str_mem k (extract_template_tokens rule.cluster_key_template) ≡ true
            → is_some (lookup k r.transformed_captures) ≡ true))
      ⊎ (All (AppliesNot o.libs hostname) (Storage.Rules.list_enabled_ordered db)
          × (evaluate o.libs o.order hostname (Storage.Rules.list_enabled_ordered db)
              ≡ ok no_match))
reached_evaluate o db hostname law it reached =
    let P = IsValid o in
    let enabled_valid = All-list_enabled_ordered P db (reached_rules_validated o db reached) in
    elim (evaluate_first o.libs o.order hostname (Storage.Rules.list_enabled_ordered db)) [
      | inr nothing ↦ inr nothing
      | inl (before, rule, after, re, m, split, none_before, applies, result) ↦
          let valid : P rule = All-middle P before rule after (rw split at enabled_valid) in
          let (r, e, tokens) =
            validated_tokens_have_values o.libs o.order o.order hostname rule re m law it it valid
              applies in
          inl (
            before,
            rule,
            after,
            r,
            split,
            none_before,
            result ∙ e,
            evaluate_match-rule_id o rule re m r e,
            tokens,
          )
    ]
