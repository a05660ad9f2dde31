-- ===== src/RuleEngine/Validate/Sound.antt =====
-- internal/ruleengine/validate.go: what a rule without validation errors has, and what `Evaluate` then makes
-- of its template.
use maga.Base.{
  ◌≡◌, refl, arith, sym, ◌∙◌, Bool, true, ◌&&◌, ◌||◌, not, List, [], ◌∷◌, ◌++◌, Str, str_eq,
  is_empty, All, Dict, lookup, insert, lookup-insert, keys, str_mem, str_eq_refl, is_some, ◌↔◌,
  IsIteration, All-str_mem, ok, err, Result-cases, Bool-cases, inl, inr,
}
use maga.Go.Libs.{Regexp, Libs, MatchesNames}
use maga.Dsl.Types.{Pipeline}
use maga.Domain.{Rule}
use maga.RuleEngine.Template.{extract_template_tokens}
use maga.RuleEngine.Evaluate.{MatchResult, evaluate_match, match_result}
use maga.RuleEngine.Evaluate.Selection.{Applies}
use maga.RuleEngine.Evaluate.Captures.{lookup-transformed_captures}
use maga.RuleEngine.Evaluate.Named.{captures_lem}
use maga.RuleEngine.Validate.{
  FieldError, defined_groups, is_defined, undefined, validate_compiled, validate_rule,
  undefined_transform_group, undefined_template_group,
}

-- The name is that of a group of the pattern.
abbrev pub IsGroup : Regexp → Str → Type 0
IsGroup re name = (not (is_empty name) && str_mem name re.subexp_names) ≡ true

is_defined-defined_groups :
    (names : List Str) (groups : Dict Bool) (k : Str)
    → is_defined (defined_groups names groups) k
      ≡ (not (is_empty k) && str_mem k names) || is_defined groups k
unfolding defined_groups str_mem str_eq
is_defined-defined_groups [] groups k = ground arith
is_defined-defined_groups ([] ∷ names) groups [] = is_defined-defined_groups names groups []
is_defined-defined_groups ([] ∷ names) groups (c ∷ k) =
    is_defined-defined_groups names groups (c ∷ k)
is_defined-defined_groups ((c ∷ n) ∷ names) groups [] = ground (
  arith,
  is_defined-defined_groups names (insert (c ∷ n) true groups) [],
  lookup-insert (c ∷ n) [] true groups,
)
is_defined-defined_groups ((c ∷ n) ∷ names) groups (d ∷ k) = ground (
  arith,
  is_defined-defined_groups names (insert (c ∷ n) true groups) (d ∷ k),
  lookup-insert (c ∷ n) (d ∷ k) true groups,
)

undefined-nil :
    (e : Str → FieldError) (groups : Dict Bool) (names : List Str)
    → undefined e groups names ≡ []
    → All (λ name. is_defined groups name ≡ true) names
unfolding undefined
undefined-nil e groups [] h = tt
undefined-nil e groups (name ∷ names) h = elim (Bool-cases (is_defined groups name)) [
  | inl yes' ↦ (yes', undefined-nil e groups names (rw yes' at h))
  | inr no' ↦ let bad : e name ∷ undefined e groups names ≡ [] = rw no' at h in cc
]

nil-undefined :
    (e : Str → FieldError) (groups : Dict Bool) (names : List Str)
    → ((k : Str) → str_mem k names ≡ true → is_defined groups k ≡ true)
    → undefined e groups names ≡ []
unfolding undefined str_mem
nil-undefined e groups [] h = refl
nil-undefined e groups (name ∷ names) h =
    let rest : (k : Str) → str_mem k names ≡ true → is_defined groups k ≡ true =
      λ k m. h k (ground (arith, m)) in
    rw (h name (ground (arith, str_eq_refl name)), nil-undefined e groups names rest)

append-nil-inv {ℓ} : {A : Type ℓ} (xs ys : List A) → xs ++ ys ≡ [] → (xs ≡ []) × (ys ≡ [])
append-nil-inv [] ys h = (refl, h)
append-nil-inv (x ∷ xs) ys h = cc

IsGroup-is_defined :
    (re : Regexp) (k : Str) → is_defined (defined_groups re.subexp_names []) k ≡ true → IsGroup re k
unfolding lookup
IsGroup-is_defined re k h = ground (arith, is_defined-defined_groups re.subexp_names [] k, h)

is_defined-IsGroup :
    (re : Regexp) (k : Str) → IsGroup re k → is_defined (defined_groups re.subexp_names []) k ≡ true
unfolding lookup
is_defined-IsGroup re k h = ground (arith, is_defined-defined_groups re.subexp_names [] k, h)

-- The pattern compiles, and each capture that has a transform and each token of the template is a group.
abbrev pub IsValidRule : Libs → Str → Dict Pipeline → Str → Type 0
IsValidRule l pattern transforms tmpl =
    (re : Regexp) × (l.compile pattern ≡ ok re)
    × ((k : Str) → str_mem k (keys transforms) ≡ true → IsGroup re k)
    × ((k : Str) → str_mem k (extract_template_tokens tmpl) ≡ true → IsGroup re k)

-- `ValidateRule` reports nothing exactly for the valid rules, whatever the order of its loops.
pub validate_rule_iff :
    (l : Libs) (order : List Str → List Str) (pattern : Str) (transforms : Dict Pipeline)
    (tmpl : Str)
    → IsIteration order
    → (validate_rule l order pattern transforms tmpl ≡ []) ↔ IsValidRule l pattern transforms tmpl
unfolding validate_rule
validate_rule_iff l order pattern transforms tmpl it = (
  λ h. elim (Result-cases (l.compile pattern)) [
    | inr (m, e) ↦ let bad : validate_compiled order (err m) transforms tmpl ≡ [] = rw e at h in cc
    | inl (re, e) ↦
        let good : validate_compiled order (ok re) transforms tmpl ≡ [] = rw e at h in
        let groups = defined_groups re.subexp_names [] in
        let (first, second) =
          append-nil-inv (undefined undefined_transform_group groups (order (keys transforms)))
            (undefined undefined_template_group groups (extract_template_tokens tmpl)) good in
        (
          re,
          e,
          λ k m. IsGroup-is_defined re k (
              All-str_mem (λ n. is_defined groups n ≡ true) (order (keys transforms))
                (undefined-nil undefined_transform_group groups (order (keys transforms)) first) k
                (it.same_keys (keys transforms) k ∙ m)),
          λ k m. IsGroup-is_defined re k (
              All-str_mem (λ n. is_defined groups n ≡ true) (extract_template_tokens tmpl)
                (undefined-nil undefined_template_group groups (extract_template_tokens tmpl)
                  second)
                k m),
        )
  ],
  λ (re, e, transforms_ok, tokens_ok).
      let groups = defined_groups re.subexp_names [] in
      rw (
        e,
        nil-undefined undefined_transform_group groups (order (keys transforms)) (λ k m.
            is_defined-IsGroup re k (transforms_ok k (sym (it.same_keys (keys transforms) k) ∙ m))),
        nil-undefined undefined_template_group groups (extract_template_tokens tmpl)
            (λ k m. is_defined-IsGroup re k (tokens_ok k m)),
      ),
)

-- If a rule was saved without validation errors and applies to a hostname, each token of its template has a
-- value among the transformed captures, so none renders as empty for want of a capture.
pub validated_tokens_have_values :
    (l : Libs) (order order' : List Str → List Str) (hostname : Str) (rule : Rule) (re : Regexp)
    (m : List Str)
    → MatchesNames l
    → IsIteration order
    → IsIteration order'
    → validate_rule l order rule.pattern rule.capture_transforms rule.cluster_key_template ≡ []
    → Applies l hostname rule re m
    → (r : MatchResult) × (evaluate_match l order' rule re m ≡ ok r)
      × ((k : Str)
          → str_mem k (extract_template_tokens rule.cluster_key_template) ≡ true
          → is_some (lookup k r.transformed_captures) ≡ true)
unfolding evaluate_match
validated_tokens_have_values l order order' hostname rule re m law it it' valid a =
    let (re', e, _, tokens) =
      (validate_rule_iff l order rule.pattern rule.capture_transforms rule.cluster_key_template
          it).0
        valid in
    let (raws, captured, found) = captures_lem l hostname rule re m law a in
    (
      match_result l order' rule raws,
      rw captured,
      λ k t.
          let same : re' ≡ re = ground (arith, a.compiles, e) in
          let group : IsGroup re k = rw same at (tokens k t) in
          rw (lookup-transformed_captures l order' rule raws k it', found k ∙ group),
    )
