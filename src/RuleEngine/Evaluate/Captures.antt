-- ===== src/RuleEngine/Evaluate/Captures.antt =====
-- internal/ruleengine/ruleengine.go: the captures of a match and the key that they render to.
use maga.Base.{
  ◌≡◌, refl, arith, ap, sym, ◌∙◌, Bool, ◌||◌, List, [], ◌∷◌, ◌++◌, Option, none, some, Str, str_eq,
  str_eq_iff, if◌then◌else◌, Dict, lookup, insert, keys, str_mem, str_mem-keys, is_some,
  IsIteration, lookup-insert, Bool-cases, inl, inr, Result, ok, err, ◌>>=◌,
}
use maga.Go.Libs.{Regexp, Libs}
use maga.Dsl.Types.{Pipeline}
use maga.Domain.{Rule}
use maga.RuleEngine.Template.{
  Visit, literal, token, value_or_empty, write_visits, walk_template_tokens, render_template,
}
use maga.RuleEngine.Evaluate.{
  Panic, MatchResult, raw_captures_of, evaluate_match, rule_match, or_next, evaluate, Warning,
  value_or_raw, warning_of, run_transform, transform_captures, match_result,
}

-- What a capture becomes: the value of its pipeline on the raw text, or the raw text if it has no pipeline
-- or the pipeline fails.
abbrev pub transformed : Libs → Dict Pipeline → Dict Str → Str → Str
transformed l transforms raws name =
    let raw = value_or_empty (lookup name raws) in
    value_or_raw raw (run_transform l (lookup name transforms) raw)

insert_first :
    (v : Str → Str) (name k : Str) (b : Bool) (o : Option Str)
    → (if b then some (v k) else if str_eq name k then some (v name) else o)
      ≡ (if str_eq name k || b then some (v k) else o)
insert_first v name k b o = elim (Bool-cases (str_eq name k)) [
  | inl same ↦
      let e : name ≡ k = (str_eq_iff name k).0 same in
      let ev : v name ≡ v k = ap v e in rw (same, ev) (ground arith)
  | inr other ↦ rw other
]

lookup-transform_captures :
    (l : Libs) (transforms : Dict Pipeline) (raws : Dict Str) (names : List Str) (out : Dict Str)
    (ws : List Warning) (k : Str)
    → lookup k (transform_captures l transforms raws names out ws).0
      ≡ (if str_mem k names then some (transformed l transforms raws k) else lookup k out)
unfolding transform_captures str_mem
lookup-transform_captures l transforms raws [] out ws k = refl
lookup-transform_captures l transforms raws (name ∷ names) out ws k =
    let v = transformed l transforms raws in
    let r = run_transform l (lookup name transforms) (value_or_empty (lookup name raws)) in
    lookup-transform_captures l transforms raws names (insert name (v name) out)
      (ws ++ warning_of name r) k
    ∙ rw lookup-insert (insert_first v name k (str_mem k names) (lookup k out))

-- The order in which Go ranges over the captures makes no difference to the transformed captures: each
-- capture has its transformed value, and no other name has one.
pub lookup-transformed_captures :
    (l : Libs) (order : List Str → List Str) (rule : Rule) (raws : Dict Str) (k : Str)
    → IsIteration order
    → lookup k (match_result l order rule raws).transformed_captures ≡ (
        if is_some (lookup k raws)
        then some (transformed l rule.capture_transforms raws k)
        else none)
lookup-transformed_captures l order rule raws k it =
    lookup-transform_captures l rule.capture_transforms raws (order (keys raws)) [] [] k
    ∙ rw (it.same_keys (keys raws) k, str_mem-keys k raws) (unfold lookup in refl)

write_visits-ext :
    (a b : Dict Str) (vs : List Visit)
    → ((k : Str) → lookup k a ≡ lookup k b)
    → write_visits a vs ≡ write_visits b vs
unfolding write_visits
write_visits-ext a b [] h = refl
write_visits-ext a b (literal t ∷ vs) h = rw (write_visits-ext a b vs h)
write_visits-ext a b (token name ∷ vs) h = rw (h name, write_visits-ext a b vs h)

matches_agree :
    (l : Libs) (order order' : List Str → List Str) (rule : Rule) (raws : Dict Str)
    → IsIteration order
    → IsIteration order'
    → ((match_result l order rule raws).rendered_cluster_key
        ≡ (match_result l order' rule raws).rendered_cluster_key)
      × ((k : Str)
          → lookup k (match_result l order rule raws).transformed_captures
            ≡ lookup k (match_result l order' rule raws).transformed_captures)
unfolding render_template
matches_agree l order order' rule raws it it' =
    let same : (k : Str)
        → lookup k (match_result l order rule raws).transformed_captures
          ≡ lookup k (match_result l order' rule raws).transformed_captures =
      λ k.
        lookup-transformed_captures l order rule raws k it
        ∙ sym (lookup-transformed_captures l order' rule raws k it') in
    (
      write_visits-ext (match_result l order rule raws).transformed_captures
          (match_result l order' rule raws).transformed_captures
          (walk_template_tokens rule.cluster_key_template) same,
      same,
    )

-- Two outcomes of `Evaluate` that agree: the same panic, or results that differ in the order of their maps and in
-- their warnings at most.
abbrev pub Agree : Result Panic MatchResult → Result Panic MatchResult → Type 0
Agree (ok r) (ok r') =
    (r.rule_id ≡ r'.rule_id)
    × (r.matched_pattern ≡ r'.matched_pattern)
    × (r.raw_captures ≡ r'.raw_captures)
    × (r.rendered_cluster_key ≡ r'.rendered_cluster_key)
    × ((k : Str) → lookup k r.transformed_captures ≡ lookup k r'.transformed_captures)
Agree (err p) (err q) = p ≡ q
Agree (ok r) (err q) = ⊥
Agree (err p) (ok r') = ⊥

module _ (l : Libs) (order order' : List Str → List Str) (it : IsIteration order)
    (it' : IsIteration order') where
  captured-Agree :
      (rule : Rule) (x : Result Panic (Dict Str))
      → Agree
          (x >>= λ raws. ok (match_result l order rule raws))
          (x >>= λ raws. ok (match_result l order' rule raws))
  captured-Agree rule (err p) = refl
  captured-Agree rule (ok raws) =
      let (key, same) = matches_agree l order order' rule raws it it' in
      (refl, refl, refl, key, same)

  evaluate_match-Agree :
      (rule : Rule) (re : Regexp) (m : List Str)
      → Agree (evaluate_match l order rule re m) (evaluate_match l order' rule re m)
  unfolding evaluate_match
  evaluate_match-Agree rule re m = captured-Agree rule (raw_captures_of re.subexp_names m)

  or_next-Agree :
      (rule : Rule) (next next' : Result Panic MatchResult) (x : Option (Regexp × List Str))
      → Agree next next'
      → Agree
          (or_next (evaluate_match l order rule) next x)
          (or_next (evaluate_match l order' rule) next' x)
  or_next-Agree rule next next' none h = h
  or_next-Agree rule next next' (some (re, m)) h = evaluate_match-Agree rule re m

  -- Two runs of `Evaluate` on the same rules that range over maps in different orders agree: they take the same
  -- rule, with the same raw captures, the same rendered cluster key and the same value for each transformed
  -- capture, or they panic alike.
  pub order_independent :
      (hostname : Str) (rules : List Rule)
      → Agree (evaluate l order hostname rules) (evaluate l order' hostname rules)
  unfolding evaluate
  order_independent hostname [] = (refl, refl, refl, refl, λ k. refl)
  order_independent hostname (rule ∷ rules) =
      or_next-Agree rule (evaluate l order hostname rules) (evaluate l order' hostname rules)
        (rule_match l hostname rule) (order_independent hostname rules)
