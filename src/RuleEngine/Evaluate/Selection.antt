-- ===== src/RuleEngine/Evaluate/Selection.antt =====
-- internal/ruleengine/ruleengine.go: which rule `Evaluate` takes.
use maga.Base.{
  ◌≡◌, refl, arith, ap, List, [], ◌∷◌, ◌++◌, none, some, Str, All, ok, Option-cases, inl, inr, ◌⊎◌,
  true,
}
use maga.Go.Libs.{Regexp, Libs}
use maga.Domain.{Rule}
use maga.RuleEngine.Evaluate.{evaluate_match, no_match, rule_match, evaluate}

-- The rule is enabled, its pattern compiles, and the compiled pattern matches.
pub record Applies (l : Libs) (hostname : Str) (rule : Rule) (re : Regexp) (m : List Str)
    : Type 0 where
  pub enabled : rule.is_enabled ≡ true
  pub compiles : l.compile rule.pattern ≡ ok re
  pub matches : re.find_string_submatch hostname ≡ some m

abbrev pub AppliesNot : Libs → Str → Rule → Type 0
AppliesNot l hostname rule = (re : Regexp) (m : List Str) → Applies l hostname rule re m → ⊥

rule_match-Applies :
    (l : Libs) (hostname : Str) (rule : Rule) (re : Regexp) (m : List Str)
    → rule_match l hostname rule ≡ some (re, m)
    → Applies l hostname rule re m
unfolding rule_match
rule_match-Applies l hostname rule re m h = ground arith

rule_match-AppliesNot :
    (l : Libs) (hostname : Str) (rule : Rule)
    → rule_match l hostname rule ≡ none
    → AppliesNot l hostname rule
unfolding rule_match
rule_match-AppliesNot l hostname rule h re m a = ground arith

-- `Evaluate` takes the first rule of the list that applies to the hostname, and returns what it gives; the
-- rules before it, which are disabled, do not compile or do not match, count for nothing. If no rule
-- applies, the result has no rule and an empty key.
pub evaluate_first :
    (l : Libs) (order : List Str → List Str) (hostname : Str) (rules : List Rule)
    → ((before : List Rule) × (rule : Rule) × (after : List Rule) × (re : Regexp) × (m : List Str)
        × (rules ≡ before ++ rule ∷ after)
        × All (AppliesNot l hostname) before
        × Applies l hostname rule re m
        × (evaluate l order hostname rules ≡ evaluate_match l order rule re m))
      ⊎ (All (AppliesNot l hostname) rules × (evaluate l order hostname rules ≡ ok no_match))
unfolding evaluate
evaluate_first l order hostname [] = inr (tt, refl)
evaluate_first l order hostname (rule ∷ rules) = elim (Option-cases (rule_match l hostname rule)) [
  | inr ((re, m), e) ↦
      inl ([], rule, rules, re, m, refl, tt, rule_match-Applies l hostname rule re m e, rw e)
  | inl e ↦
      let not_here = rule_match-AppliesNot l hostname rule e in
      elim (evaluate_first l order hostname rules) [
        | inl (before, found, after, re, m, split, none_before, applies, result) ↦ inl (
          rule ∷ before,
          found,
          after,
          re,
          m,
          ap (λ r. rule ∷ r) split,
          (not_here, none_before),
          applies,
          rw e result,
        )
        | inr (none_at_all, result) ↦ inr ((not_here, none_at_all), rw e result)
      ]
]
