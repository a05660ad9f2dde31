-- ===== src/RuleEngine/Evaluate.antt =====
-- internal/ruleengine/ruleengine.go: `Evaluate`. `for name, raw := range m` visits the keys of `m` in an
-- order that Go chooses; it is the parameter `order`. `match[i]` panics out of range: `Evaluate` itself
-- returns no error, so the error side of a result is that panic.
pub mod Selection
pub mod Captures
pub mod Named
use maga.Base.{
  ℕ, Bool, true, false, List, [], ◌∷◌, ◌++◌, Option, none, some, Str, is_empty, if◌then◌else◌, Dict,
  lookup, insert, keys, Result, ok, err, ◌>>=◌,
}
use maga.Go.Libs.{Regexp, Libs}
use maga.Dsl.Types.{Pipeline, ApplyError}
use maga.Dsl.Pipeline.{apply}
use maga.Domain.{Uuid, Rule}
use maga.RuleEngine.Template.{value_or_empty, render_template}

pub data Warning : Type 0 where
  transform_failed : Str → ApplyError → Warning
  empty_cluster_key : Warning

pub record MatchResult : Type 0 where
  pub rule_id : Option Uuid
  pub matched_pattern : Str
  pub raw_captures : Dict Str
  pub transformed_captures : Dict Str
  pub rendered_cluster_key : Str
  pub warnings : List Warning

pub data Panic : Type 0 where
  index_out_of_range : Panic

-- The loop over `re.SubexpNames()` from the second entry on.
unfoldable pub named_captures : List Str → List Str → Dict Str → Result Panic (Dict Str)
named_captures [] match d = ok d
named_captures ([] ∷ names) [] d = named_captures names [] d
named_captures ([] ∷ names) (m ∷ match) d = named_captures names match d
named_captures ((c ∷ n) ∷ names) [] d = err index_out_of_range
named_captures ((c ∷ n) ∷ names) (m ∷ match) d = named_captures names match (insert (c ∷ n) m d)

-- The entry at index 0 is skipped, whatever its name.
unfoldable pub raw_captures_of : List Str → List Str → Result Panic (Dict Str)
unfolding named_captures
raw_captures_of [] match = ok []
raw_captures_of (n ∷ names) [] = named_captures names [] []
raw_captures_of (n ∷ names) (m ∷ match) = named_captures names match []

-- The value of a capture behind its pipeline, if there is one, and the warning of a failure.
abbrev pub value_or_raw : Str → Result ApplyError Str → Str
value_or_raw raw (ok v) = v
value_or_raw raw (err e) = raw

abbrev pub warning_of : Str → Result ApplyError Str → List Warning
warning_of name (ok v) = []
warning_of name (err e) = transform_failed name e ∷ []

abbrev pub run_transform : Libs → Option Pipeline → Str → Result ApplyError Str
run_transform l none raw = ok raw
run_transform l (some p) raw = apply l p raw

-- The loop over the captures: the map that it fills and the warnings that it appends.
unfoldable pub transform_captures :
    Libs → Dict Pipeline → Dict Str → List Str → Dict Str → List Warning → Dict Str × List Warning
transform_captures l transforms raws [] out warnings = (out, warnings)
transform_captures l transforms raws (name ∷ names) out warnings =
    let raw = value_or_empty (lookup name raws) in
    let r = run_transform l (lookup name transforms) raw in
    transform_captures l transforms raws names (insert name (value_or_raw raw r) out)
      (warnings ++ warning_of name r)

abbrev pub key_warning : Str → List Warning
key_warning key = if is_empty key then empty_cluster_key ∷ [] else []

abbrev pub match_result : Libs → (List Str → List Str) → Rule → Dict Str → MatchResult
match_result l order rule raws =
    let t = transform_captures l rule.capture_transforms raws (order (keys raws)) [] [] in
    let key = render_template rule.cluster_key_template t.0 in
    record {
      rule_id = some rule.id;
      matched_pattern = rule.pattern;
      raw_captures = raws;
      transformed_captures = t.0;
      rendered_cluster_key = key;
      warnings = t.1 ++ key_warning key;
    }

unfoldable pub evaluate_match :
    Libs → (List Str → List Str) → Rule → Regexp → List Str → Result Panic MatchResult
unfolding raw_captures_of transform_captures
evaluate_match l order rule re match = do
  raws ← raw_captures_of re.subexp_names match
  ok (match_result l order rule raws)

abbrev pub no_match : MatchResult
no_match = record {
  rule_id = none;
  matched_pattern = [];
  raw_captures = [];
  transformed_captures = [];
  rendered_cluster_key = [];
  warnings = [];
}

-- The compiled pattern and its match, if the rule is enabled, its pattern compiles and it matches.
abbrev match_of : Option (List Str) → Regexp → Option (Regexp × List Str)
match_of none re = none
match_of (some m) re = some (re, m)

abbrev compiled_match : Str → Result Str Regexp → Option (Regexp × List Str)
compiled_match hostname (err e) = none
compiled_match hostname (ok re) = match_of (re.find_string_submatch hostname) re

unfoldable pub rule_match : Libs → Str → Rule → Option (Regexp × List Str)
rule_match l hostname rule =
    if rule.is_enabled then compiled_match hostname (l.compile rule.pattern) else none

abbrev pub or_next :
    (Regexp → List Str → Result Panic MatchResult)
    → Result Panic MatchResult
    → Option (Regexp × List Str)
    → Result Panic MatchResult
or_next found next none = next
or_next found next (some (re, m)) = found re m

-- `Evaluate`: a rule that does not match, `continue`, leaves the rest of the list.
unfoldable pub evaluate : Libs → (List Str → List Str) → Str → List Rule → Result Panic MatchResult
unfolding rule_match evaluate_match
evaluate l order hostname [] = ok no_match
evaluate l order hostname (rule ∷ rules) =
    let next = evaluate l order hostname rules in
    or_next (evaluate_match l order rule) next (rule_match l hostname rule)
