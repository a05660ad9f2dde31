-- ===== src/RuleEngine/Evaluate/Named.antt =====
-- internal/ruleengine/ruleengine.go: which names of a pattern are captured, and that no match panics.
use maga.Base.{
  ℕ, ◌≡◌, refl, arith, ap, sym, ◌∙◌, Bool, ◌||◌, ◌&&◌, not, List, [], ◌∷◌, Str, str_eq, length,
  is_empty, Dict, lookup, insert, str_mem, is_some, lookup-insert, ok, inl, inr,
}
use maga.Go.Libs.{Regexp, Libs, MatchesNames}
use maga.Domain.{Rule}
use maga.RuleEngine.Evaluate.{
  MatchResult, named_captures, raw_captures_of, match_result, evaluate_match, evaluate, no_match,
}
use maga.RuleEngine.Evaluate.Selection.{Applies, evaluate_first}

skip_unnamed :
    (k : Str) (b o : Bool)
    → (not (is_empty k) && b) || o ≡ (not (is_empty k) && (str_eq [] k || b)) || o
unfolding str_eq
skip_unnamed [] b o = refl
skip_unnamed (c ∷ k) b o = refl

add_named :
    (c : ℕ) (n m : Str) (d : Dict Str) (k : Str) (b : Bool)
    → (not (is_empty k) && b) || is_some (lookup k (insert (c ∷ n) m d))
      ≡ (not (is_empty k) && (str_eq (c ∷ n) k || b)) || is_some (lookup k d)
unfolding str_eq
add_named c n m d [] b = ground (arith, lookup-insert (c ∷ n) [] m d)
add_named c n m d (e ∷ k) b = ground (arith, lookup-insert (c ∷ n) (e ∷ k) m d)

-- A name of the pattern is captured if it is not empty; `d` holds what was captured before.
named_captures_lem :
    (names match : List Str) (d : Dict Str)
    → length match ≡ length names
    → (d' : Dict Str) × (named_captures names match d ≡ ok d')
      × ((k : Str)
          → is_some (lookup k d') ≡ (not (is_empty k) && str_mem k names) || is_some (lookup k d))
unfolding named_captures str_mem
named_captures_lem [] [] d h = (d, refl, λ k. ground arith)
named_captures_lem [] (m ∷ match) d h = absurd (omega arith)
named_captures_lem (n ∷ names) [] d h = absurd (omega arith)
named_captures_lem ([] ∷ names) (m ∷ match) d h =
    let (d', e, found) = named_captures_lem names match d (omega arith) in
    (d', e, λ k. found k ∙ skip_unnamed k (str_mem k names) (is_some (lookup k d)))
named_captures_lem ((c ∷ n) ∷ names) (m ∷ match) d h =
    let (d', e, found) = named_captures_lem names match (insert (c ∷ n) m d) (omega arith) in
    (d', e, λ k. found k ∙ add_named c n m d k (str_mem k names))

whole_unnamed :
    (k : Str) (names : List Str)
    → (not (is_empty k) && str_mem k names) || is_some (lookup {V = Str} k [])
      ≡ not (is_empty k) && str_mem k ([] ∷ names)
unfolding str_mem str_eq lookup
whole_unnamed [] names = refl
whole_unnamed (c ∷ k) names = ground arith

-- The captures of a rule that applies: each nonempty name of its pattern has one.
pub captures_lem :
    (l : Libs) (hostname : Str) (rule : Rule) (re : Regexp) (m : List Str)
    → MatchesNames l
    → Applies l hostname rule re m
    → (raws : Dict Str) × (raw_captures_of re.subexp_names m ≡ ok raws)
      × ((k : Str) → is_some (lookup k raws) ≡ not (is_empty k) && str_mem k re.subexp_names)
unfolding raw_captures_of
captures_lem l hostname rule re [] law a =
    let (names, first) = law.first_unnamed rule.pattern re a.compiles in
    absurd (
      omega
        (arith, law.same_length rule.pattern hostname re [] a.compiles a.matches, ap length first))
captures_lem l hostname rule re (w ∷ m) law a =
    let (names, first) = law.first_unnamed rule.pattern re a.compiles in
    let len = law.same_length rule.pattern hostname re (w ∷ m) a.compiles a.matches in
    let (raws, e, found) = named_captures_lem names m [] (omega (arith, len, ap length first)) in
    (
      raws,
      rw first e,
      λ k.
          found k ∙ whole_unnamed k names ∙ ap (λ ns. not (is_empty k) && str_mem k ns) (sym first),
    )

-- `Evaluate` reads an entry of the match for each named group, so with the lengths that `regexp` documents
-- it does not run out of range, and always returns a result.
pub evaluate_total :
    (l : Libs) (order : List Str → List Str) (hostname : Str) (rules : List Rule)
    → MatchesNames l
    → (r : MatchResult) × (evaluate l order hostname rules ≡ ok r)
evaluate_total l order hostname rules law = elim (evaluate_first l order hostname rules) [
  | inl (before, rule, after, re, m, split, none_before, applies, result) ↦
      let (raws, e, found) = captures_lem l hostname rule re m law applies in
      (match_result l order rule raws, result ∙ (unfold evaluate_match in rw e))
  | inr (none_at_all, result) ↦ (no_match, result)
]
