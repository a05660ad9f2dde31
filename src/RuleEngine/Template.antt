-- ===== src/RuleEngine/Template.antt =====
-- internal/ruleengine/template.go. The bytes `{` and `}` are ASCII, so to cut a string there is the same
-- on its bytes and on its code points.
pub mod Source
pub mod Reading
use maga.Base.{
  ℕ, zero, suc, Bool, true, false, List, [], ◌∷◌, ◌++◌, Option, none, some, Str, length, ◌==◌,
  if◌then◌else◌, Dict, lookup,
}
use maga.Go.Strings.{cut_at}

-- A call of `visit`: with a literal, or with a token.
pub data Visit : Type 0 where
  literal : Str → Visit
  token : Str → Visit

abbrev visit_literal : Str → List Visit → List Visit
visit_literal [] vs = vs
visit_literal (c ∷ s) vs = literal (c ∷ s) ∷ vs

-- Behind an opening brace: a token up to the closing one, or a last literal.
abbrev after_open : (Str → List Visit) → Str → Option (Str × Str) → List Visit
after_open next after none = literal (b'{' ∷ after) ∷ []
after_open next after (some (name, rest)) = token name ∷ next rest

abbrev from_open : (Str → List Visit) → Str → Option (Str × Str) → List Visit
from_open next tmpl none = literal tmpl ∷ []
from_open next tmpl (some (before, after)) =
    visit_literal before (after_open next after (cut_at b'}' after))

-- `walkTemplateTokens`: the calls of `visit` in order. Each round passes at least one code point.
pub walk : ℕ → Str → List Visit
unfolding cut_at
walk zero tmpl = []
walk (suc fuel) [] = []
walk (suc fuel) (c ∷ s) = from_open (walk fuel) (c ∷ s) (cut_at b'{' (c ∷ s))

unfoldable pub walk_template_tokens : Str → List Visit
unfolding walk
walk_template_tokens tmpl = walk (length tmpl) tmpl

abbrev pub value_or_empty : Option Str → Str
value_or_empty none = []
value_or_empty (some v) = v

-- The closure of `renderTemplate` over a list of visits: `b.WriteString`.
unfoldable pub write_visits : Dict Str → List Visit → Str
unfolding lookup
write_visits values [] = []
write_visits values (literal t ∷ vs) = t ++ write_visits values vs
write_visits values (token name ∷ vs) =
    value_or_empty (lookup name values) ++ write_visits values vs

unfoldable pub render_template : Str → Dict Str → Str
unfolding write_visits walk_template_tokens
render_template tmpl values = write_visits values (walk_template_tokens tmpl)

unfoldable pub token_names : List Visit → List Str
token_names [] = []
token_names (literal t ∷ vs) = token_names vs
token_names (token name ∷ vs) = name ∷ token_names vs

unfoldable pub extract_template_tokens : Str → List Str
unfolding token_names walk_template_tokens
extract_template_tokens tmpl = token_names (walk_template_tokens tmpl)
