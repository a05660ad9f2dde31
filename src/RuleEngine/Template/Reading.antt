-- ===== src/RuleEngine/Template/Reading.antt =====
-- internal/ruleengine/template.go: `renderTemplate` and `extractTemplateTokens` on a template that is
-- written as literals and tokens. Both read the visits from the front, by one fold.
use maga.Base.{
  ℕ, suc, ◌+◌, ◌≤◌, ◌≡◌, refl, ap, sym, ◌∙◌, arith, List, [], ◌∷◌, ◌++◌, append_assoc, Str, length,
  Dict, lookup, Option-cases, some, none, inl, inr, length-append, All-append,
}
use maga.RuleEngine.Template.{
  Visit, literal, token, visit_literal, after_open, from_open, walk, walk_template_tokens,
  value_or_empty, write_visits, render_template, token_names, extract_template_tokens,
}
use maga.RuleEngine.Template.Source.{source, walk_fuel}
use maga.Go.Strings.{cut_at}
use maga.Go.Strings.Cut.{Lacks, cut_at-cases, cut_at-append, cut_at-prefix, cut_at-none}

-- A literal has no opening brace and the name of a token no closing one.
abbrev pub IsPlain : List Visit → Type 0
IsPlain [] = Unit
IsPlain (literal t ∷ vs) = Lacks b'{' t × IsPlain vs
IsPlain (token name ∷ vs) = Lacks b'}' name × IsPlain vs

module _ {R : Type 0} (lit : Str → R → R) (tok : Str → R → R) (last : R) where
  fold_visits : List Visit → R
  fold_visits [] = last
  fold_visits (literal t ∷ vs) = lit t (fold_visits vs)
  fold_visits (token name ∷ vs) = tok name (fold_visits vs)

-- Literals act on what follows as texts do.
module _ {R : Type 0} (lit : Str → R → R) (tok : Str → R → R) (last : R)
    (lit_nil : (r : R) → lit [] r ≡ r)
    (lit_append : (t u : Str) (r : R) → lit (t ++ u) r ≡ lit t (lit u r)) where
  read : List Visit → R
  unfolding fold_visits
  read = fold_visits lit tok last

  read-visit_literal : (t : Str) (vs : List Visit) → read (visit_literal t vs) ≡ lit t (read vs)
  unfolding read
  read-visit_literal [] vs = sym (lit_nil (fold_visits lit tok last vs))
  read-visit_literal (c ∷ t) vs = refl

  -- One round, also where nothing is left.
  read-walk :
      (f : ℕ) (s : Str) → read (walk (suc f) s) ≡ read (from_open (walk f) s (cut_at b'{' s))
  unfolding walk read cut_at
  read-walk f [] = sym (lit_nil last)
  read-walk f (c ∷ s) = refl

  read_prefix :
      (f : ℕ) (t s : Str)
      → Lacks b'{' t
      → read (walk (suc f) (t ++ s)) ≡ lit t (read (walk (suc f) s))
  unfolding read fold_visits
  read_prefix f t s l = elim (cut_at-cases b'{' s) [
    | inl (e, l') ↦
        rw (read-walk f (t ++ s), cut_at-none b'{' (t ++ s) (All-append _ t s l l'))
          (rw (read-walk f s, e) (lit_append t s last))
    | inr (b, a, e, split, l') ↦
        rw (read-walk f (t ++ s), cut_at-prefix b'{' t s b a l e)
          (rw (read-walk f s, e)
            (rw
              (
                read-visit_literal (t ++ b) (after_open (walk f) a (cut_at b'}' a)),
                read-visit_literal b (after_open (walk f) a (cut_at b'}' a)),
              )
              (lit_append t b _)))
  ]

  read_token :
      (f : ℕ) (name s : Str)
      → Lacks b'}' name
      → read (walk (suc f) (b'{' ∷ name ++ b'}' ∷ s)) ≡ tok name (read (walk f s))
  unfolding walk cut_at read fold_visits
  read_token f name s l = rw (cut_at-append b'}' name s l)

  read-source :
      (f : ℕ) (vs : List Visit)
      → IsPlain vs
      → length (source vs) ≤ suc f
      → read (walk (suc f) (source vs)) ≡ read vs
  unfolding read fold_visits source
  read-source f [] h le = unfold walk in refl
  read-source f (literal t ∷ vs) (l, h) le =
      read_prefix f t (source vs) l
      ∙ ap (lit t) (read-source f vs h (omega (arith, length-append {0} t (source vs))))
  read-source f (token name ∷ vs) (l, h) le =
      let len : suc (length name + suc (length (source vs))) ≤ suc f =
        omega (arith, length-append {0} name (b'}' ∷ source vs)) in
      read_token f name (source vs) l
      ∙ ap (tok name) (
          ap (fold_visits lit tok last)
            (walk_fuel f (suc f) (source vs) (omega arith) (omega arith))
          ∙ read-source f vs h (omega arith))

  read-walk_template_tokens :
      (vs : List Visit) → IsPlain vs → read (walk_template_tokens (source vs)) ≡ read vs
  unfolding walk_template_tokens
  read-walk_template_tokens vs h =
      let n = length (source vs) in
      ap read (walk_fuel n (suc n) (source vs) (omega arith) (omega arith))
      ∙ read-source n vs h (omega arith)

value_of : Dict Str → Str → Str
value_of values name = value_or_empty (lookup name values)

write_visits-fold :
    (values : Dict Str) (vs : List Visit)
    → write_visits values vs ≡ fold_visits ◌++◌ (λ name r. value_of values name ++ r) [] vs
unfolding write_visits fold_visits value_of
write_visits-fold values [] = refl
write_visits-fold values (literal t ∷ vs) = rw (write_visits-fold values vs)
write_visits-fold values (token name ∷ vs) = rw (write_visits-fold values vs)

token_names-fold :
    (vs : List Visit) → token_names vs ≡ fold_visits (λ t r. r) (λ name r. name ∷ r) [] vs
unfolding token_names fold_visits
token_names-fold [] = refl
token_names-fold (literal t ∷ vs) = token_names-fold vs
token_names-fold (token name ∷ vs) = rw (token_names-fold vs)

-- What a template renders to: its parts one after the other, a literal as it is, a token as its value, or as
-- nothing if it has none.
pub data Renders (values : Dict Str) : List Visit → Str → Type 0 where
  no_part : Renders values [] []
  part_literal :
      {vs : List Visit} {out : Str} (t : Str)
      → Renders values vs out
      → Renders values (literal t ∷ vs) (t ++ out)
  part_value :
      {vs : List Visit} {out : Str} (name v : Str)
      → lookup name values ≡ some v
      → Renders values vs out
      → Renders values (token name ∷ vs) (v ++ out)
  part_missing :
      {vs : List Visit} {out : Str} (name : Str)
      → lookup name values ≡ none
      → Renders values vs out
      → Renders values (token name ∷ vs) out

write_visits-Renders :
    (values : Dict Str) (vs : List Visit) → Renders values vs (write_visits values vs)
unfolding write_visits
write_visits-Renders values [] = no_part
write_visits-Renders values (literal t ∷ vs) = part_literal t (write_visits-Renders values vs)
write_visits-Renders values (token name ∷ vs) = elim (Option-cases (lookup name values)) [
  | inl missing ↦ rw missing (part_missing name missing (write_visits-Renders values vs))
  | inr (v, found) ↦ rw found (part_value name v found (write_visits-Renders values vs))
]

-- The names of the tokens, in order.
pub data HasTokens : List Visit → List Str → Type 0 where
  no_token : HasTokens [] []
  past_literal :
      {vs : List Visit} {names : List Str} (t : Str)
      → HasTokens vs names
      → HasTokens (literal t ∷ vs) names
  next_token :
      {vs : List Visit} {names : List Str} (name : Str)
      → HasTokens vs names
      → HasTokens (token name ∷ vs) (name ∷ names)

token_names-HasTokens : (vs : List Visit) → HasTokens vs (token_names vs)
unfolding token_names
token_names-HasTokens [] = no_token
token_names-HasTokens (literal t ∷ vs) = past_literal t (token_names-HasTokens vs)
token_names-HasTokens (token name ∷ vs) = next_token name (token_names-HasTokens vs)

rendered :
    (values : Dict Str) (vs : List Visit)
    → IsPlain vs
    → render_template (source vs) values ≡ write_visits values vs
unfolding render_template read
rendered values vs h =
    write_visits-fold values (walk_template_tokens (source vs))
    ∙ read-walk_template_tokens ◌++◌ (λ name r. value_of values name ++ r) [] (λ r. refl)
        (λ t u r. append_assoc t u r) vs h
    ∙ sym (write_visits-fold values vs)

extracted : (vs : List Visit) → IsPlain vs → extract_template_tokens (source vs) ≡ token_names vs
unfolding extract_template_tokens read
extracted vs h =
    token_names-fold (walk_template_tokens (source vs))
    ∙ read-walk_template_tokens (λ t r. r) (λ name r. name ∷ r) [] (λ r. refl) (λ t u r. refl) vs h
    ∙ sym (token_names-fold vs)

-- Rendering a template that is written as literals and tokens writes the literals as they are and for each
-- token its value, or nothing if it has none.
pub render_template-source :
    (values : Dict Str) (vs : List Visit)
    → IsPlain vs
    → Renders values vs (render_template (source vs) values)
render_template-source values vs h = rw (rendered values vs h) (write_visits-Renders values vs)

-- The tokens of such a template are the ones that it was written with, in order.
pub extract_template_tokens-source :
    (vs : List Visit) → IsPlain vs → HasTokens vs (extract_template_tokens (source vs))
extract_template_tokens-source vs h = rw (extracted vs h) (token_names-HasTokens vs)
