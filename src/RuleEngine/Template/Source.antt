-- ===== src/RuleEngine/Template/Source.antt =====
-- internal/ruleengine/template.go: the visits of a template make it up, and the fuel suffices.
use maga.Base.{
  ℕ, zero, suc, ◌≤◌, ◌<◌, ◌≡◌, refl, ap, sym, ◌∙◌, arith, List, [], ◌∷◌, ◌++◌, append-nil, Str,
  length, inl, inr,
}
use maga.RuleEngine.Template.{Visit, literal, token, visit_literal, walk, walk_template_tokens}
use maga.Go.Strings.Cut.{cut_at-cases, behind_lt}

-- The text that a list of visits stands for.
unfoldable pub source : List Visit → Str
source [] = []
source (literal t ∷ vs) = t ++ source vs
source (token name ∷ vs) = b'{' ∷ name ++ b'}' ∷ source vs

source-visit_literal : (t : Str) (vs : List Visit) → source (visit_literal t vs) ≡ t ++ source vs
unfolding source
source-visit_literal [] vs = refl
source-visit_literal (c ∷ t) vs = refl

source-walk : (fuel : ℕ) (s : Str) → length s ≤ fuel → source (walk fuel s) ≡ s
unfolding walk source
source-walk zero [] h = refl
source-walk zero (c ∷ s) h = absurd (omega arith)
source-walk (suc fuel) [] h = refl
source-walk (suc fuel) (c ∷ s) h = elim (cut_at-cases b'{' (c ∷ s)) [
  | inl (e, _) ↦ rw (e, append-nil)
  | inr (b, a, e, split, _) ↦
      rw (e, source-visit_literal)
        (elim (cut_at-cases b'}' a) [
          | inl (e', _) ↦ rw (e', append-nil) (sym split)
          | inr (name, rest, e', split', _) ↦
              rw
                (
                  e',
                  source-walk fuel rest (
                      omega (
                        arith,
                        behind_lt b'{' (c ∷ s) b a split,
                        behind_lt b'}' a name rest split',
                      )),
                )
                (sym (split ∙ ap (λ r. b ++ b'{' ∷ r) split'))
        ])
]

-- The visits of every template make it up: their source is the template.
pub source-walk_template_tokens : (tmpl : Str) → source (walk_template_tokens tmpl) ≡ tmpl
unfolding walk_template_tokens
source-walk_template_tokens tmpl = source-walk (length tmpl) tmpl (omega arith)

-- More fuel than the length changes nothing.
pub walk_fuel : (f g : ℕ) (s : Str) → length s ≤ f → length s ≤ g → walk f s ≡ walk g s
unfolding walk
walk_fuel zero zero s h k = refl
walk_fuel zero (suc g) [] h k = refl
walk_fuel zero (suc g) (c ∷ s) h k = absurd (omega arith)
walk_fuel (suc f) zero [] h k = refl
walk_fuel (suc f) zero (c ∷ s) h k = absurd (omega arith)
walk_fuel (suc f) (suc g) [] h k = refl
walk_fuel (suc f) (suc g) (c ∷ s) h k = elim (cut_at-cases b'{' (c ∷ s)) [
  | inl (e, _) ↦ rw e
  | inr (b, a, e, split, _) ↦ rw e (
      ap (visit_literal b) (elim (cut_at-cases b'}' a) [
        | inl (e', _) ↦ rw e'
        | inr (name, rest, e', split', _) ↦
            let lt : length rest < length (c ∷ s) =
              omega (arith, behind_lt b'{' (c ∷ s) b a split, behind_lt b'}' a name rest split') in
            rw e' (ap (λ vs. token name ∷ vs) (walk_fuel f g rest (omega arith) (omega arith)))
      ]))
]
