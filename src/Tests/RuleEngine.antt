-- ===== src/Tests/RuleEngine.antt =====
-- internal/ruleengine: applied theorems.
use maga.RuleEngine.Template.Reading.{Renders, HasTokens}
use maga.RuleEngine.Evaluate.Captures.{Agree}
use maga.Base.{
  ◌≡◌, ◌↔◌, ◌⊎◌, refl, arith, true, pos, List, [], ◌∷◌, ◌++◌, Str, codes, lookup, insert, All, ok,
  Dict, is_some, str_mem, IsIteration,
}
use maga.Go.Strings.{has_prefix}
use maga.Go.Libs.{Regexp}
use maga.Domain.{Rule}
use maga.RuleEngine.Template.{Visit, literal, token, render_template, extract_template_tokens}
use maga.RuleEngine.Template.Source.{source}
use maga.RuleEngine.Template.Reading.{
  IsPlain, render_template-source, extract_template_tokens-source,
}
use maga.RuleEngine.Evaluate.{MatchResult, evaluate, evaluate_match, no_match}
use maga.RuleEngine.Evaluate.Selection.{Applies, AppliesNot, evaluate_first}
use maga.RuleEngine.Evaluate.Captures.{order_independent}
use maga.RuleEngine.Evaluate.Named.{evaluate_total}
use maga.RuleEngine.Validate.{validate_rule}
use maga.RuleEngine.Validate.Sound.{IsValidRule, validate_rule_iff, validated_tokens_have_values}
use maga.Dsl.Pipeline.Ranges.{call}
use maga.Tests.Ascii.{ascii, ascii-MatchesNames, prefix_regexp}

abbrev pub in_order : List Str → List Str
in_order ks = ks

pub in_order-IsIteration : IsIteration in_order
in_order-IsIteration = record { same_keys = λ ks k. refl }

abbrev pub rule_of : Str → Str → Rule
rule_of pattern tmpl = record {
  id = 7;
  name = codes "r";
  description = [];
  pattern = pattern;
  capture_transforms = (codes "site", call "upper" [] ∷ []) ∷ [];
  cluster_key_template = tmpl;
  priority = pos 10;
  is_enabled = true;
}

abbrev pub site_rule : Rule
site_rule = rule_of (codes "sw-") (codes "S-{site}")

abbrev site_match : List Str
site_match = codes "sw-ber" ∷ codes "ber" ∷ []

abbrev raws : Dict Str
raws = (codes "site", codes "ber") ∷ []

site_rule-Applies :
    Applies ascii (codes "sw-ber") site_rule (prefix_regexp (codes "sw-")) site_match
unfolding has_prefix
site_rule-Applies = record { enabled = refl; compiles = refl; matches = refl }

site_rule_valid :
    validate_rule ascii in_order (codes "sw-") site_rule.capture_transforms (codes "S-{site}") ≡ []
unfolding validate_rule lookup insert extract_template_tokens
site_rule_valid = refl

validated_tokens_have_values_example :
    (r : MatchResult) × (evaluate_match ascii in_order site_rule
        (prefix_regexp (codes "sw-"))
        site_match
      ≡ ok r)
    × ((k : Str)
        → str_mem k (extract_template_tokens (codes "S-{site}")) ≡ true
        → is_some (lookup k r.transformed_captures) ≡ true)
validated_tokens_have_values_example =
    validated_tokens_have_values ascii in_order in_order (codes "sw-ber") site_rule
      (prefix_regexp (codes "sw-")) site_match ascii-MatchesNames in_order-IsIteration
      in_order-IsIteration site_rule_valid site_rule-Applies

abbrev two_rules : List Rule
two_rules = rule_of (codes "rt-") (codes "R") ∷ site_rule ∷ []

evaluate_first_example :
    ((before : List Rule) × (rule : Rule) × (after : List Rule) × (re : Regexp) × (m : List Str)
      × (two_rules ≡ before ++ rule ∷ after)
      × All (AppliesNot ascii (codes "sw-ber")) before
      × Applies ascii (codes "sw-ber") rule re m
      × (evaluate ascii in_order (codes "sw-ber") two_rules
          ≡ evaluate_match ascii in_order rule re m))
    ⊎ (All (AppliesNot ascii (codes "sw-ber")) two_rules
        × (evaluate ascii in_order (codes "sw-ber") two_rules ≡ ok no_match))
evaluate_first_example = evaluate_first ascii in_order (codes "sw-ber") two_rules

validate_rule_iff_example :
    (validate_rule ascii in_order (codes "sw-") site_rule.capture_transforms (codes "S-{site}")
      ≡ [])
    ↔ IsValidRule ascii (codes "sw-") site_rule.capture_transforms (codes "S-{site}")
validate_rule_iff_example =
    validate_rule_iff ascii in_order (codes "sw-") site_rule.capture_transforms (codes "S-{site}")
      in_order-IsIteration

abbrev site_visits : List Visit
site_visits = literal (codes "S-") ∷ token (codes "site") ∷ []

site_visits-IsPlain : IsPlain site_visits
site_visits-IsPlain = ground arith

render_template-source_example :
    Renders raws site_visits (render_template (source site_visits) raws)
render_template-source_example = render_template-source raws site_visits site_visits-IsPlain

extract_template_tokens-source_example :
    HasTokens site_visits (extract_template_tokens (source site_visits))
extract_template_tokens-source_example =
    extract_template_tokens-source site_visits site_visits-IsPlain

order_independent_example :
    Agree
      (evaluate ascii in_order (codes "sw-ber") (site_rule ∷ []))
      (evaluate ascii in_order (codes "sw-ber") (site_rule ∷ []))
order_independent_example =
    order_independent ascii in_order in_order in_order-IsIteration in_order-IsIteration
      (codes "sw-ber") (site_rule ∷ [])

evaluate_total_example :
    (r : MatchResult) × (evaluate ascii in_order (codes "sw-ber") two_rules ≡ ok r)
evaluate_total_example = evaluate_total ascii in_order (codes "sw-ber") two_rules ascii-MatchesNames
