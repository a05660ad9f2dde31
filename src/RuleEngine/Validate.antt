-- ===== src/RuleEngine/Validate.antt =====
-- internal/ruleengine/validate.go: `ValidateRule`. A `FieldError` keeps what its field and its message are
-- made of.
pub mod Sound
use maga.Base.{
  Bool, true, false, List, [], ◌∷◌, ◌++◌, Option, none, some, Str, if◌then◌else◌, Dict, lookup,
  insert, keys, Result, ok, err, is_some,
}
use maga.Go.Libs.{Regexp, Libs}
use maga.Dsl.Types.{Pipeline}
use maga.RuleEngine.Template.{extract_template_tokens}

pub data FieldError : Type 0 where
  invalid_pattern : Str → FieldError
  undefined_transform_group : Str → FieldError
  undefined_template_group : Str → FieldError

-- `groups`
pub defined_groups : List Str → Dict Bool → Dict Bool
defined_groups [] groups = groups
defined_groups ([] ∷ names) groups = defined_groups names groups
defined_groups ((c ∷ n) ∷ names) groups = defined_groups names (insert (c ∷ n) true groups)

abbrev true_or_missing : Option Bool → Bool
true_or_missing none = false
true_or_missing (some b) = b

-- `groups[name]`
abbrev is_defined : Dict Bool → Str → Bool
is_defined groups name = true_or_missing (lookup name groups)

-- The errors that a loop appends, one for each name that is not defined.
pub undefined : (Str → FieldError) → Dict Bool → List Str → List FieldError
undefined e groups [] = []
undefined e groups (name ∷ names) =
    let rest = undefined e groups names in if is_defined groups name then rest else e name ∷ rest

abbrev validate_compiled :
    (List Str → List Str) → Result Str Regexp → Dict Pipeline → Str → List FieldError
validate_compiled order (err message) transforms tmpl = invalid_pattern message ∷ []
validate_compiled order (ok re) transforms tmpl =
    let groups = defined_groups re.subexp_names [] in
    undefined undefined_transform_group groups (order (keys transforms))
    ++ undefined undefined_template_group groups (extract_template_tokens tmpl)

unfoldable pub validate_rule :
    Libs → (List Str → List Str) → Str → Dict Pipeline → Str → List FieldError
unfolding defined_groups undefined
validate_rule l order pattern transforms tmpl =
    validate_compiled order (l.compile pattern) transforms tmpl
