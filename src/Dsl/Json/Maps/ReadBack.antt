-- ===== src/Dsl/Json/Maps/ReadBack.antt =====
-- internal/dsl/json.go: a map of pipelines that was read is read back from what is written of it.
use maga.Base.{◌≡◌, refl, ap, ◌∙◌, arith, [], ◌∷◌, Str, Dict, ok, ◌>>=◌, >>=-eq-ok, All}
use maga.Go.Libs.{Libs}
use maga.Dsl.Types.{Pipeline}
use maga.Dsl.Json.{marshal_json, from_json}
use maga.Dsl.Json.RoundTrip.{IsStep}
use maga.Dsl.Json.ReadBack.{All-IsStep, from_json-read_back}
use maga.Dsl.Json.Maps.{TransformsJson, marshal_transforms, unmarshal_transforms}

-- Each step of each pipeline is one that the registry can call, with arguments that hold one value each.
abbrev pub AllSteps : Libs → Dict Pipeline → Type 0
AllSteps l ts = All (λ (e : Str × Pipeline). All (IsStep l) e.1) ts

-- A map of pipelines that was read from JSON is read back from what is written of it, if it can be written, and
-- then each of its steps can be called.
pub transforms_read_back :
    (l : Libs) (raw : TransformsJson) (ts : Dict Pipeline) {out : TransformsJson}
    → unmarshal_transforms l raw ≡ ok ts
    → marshal_transforms l ts ≡ ok out
    → (unmarshal_transforms l out ≡ ok ts) × AllSteps l ts
unfolding unmarshal_transforms marshal_transforms
transforms_read_back l [] ts {out} r w =
    let none_left : [] ≡ ts = cc in
    let w' : marshal_transforms l [] ≡ ok out = ap (marshal_transforms l) none_left ∙ w in
    let none_written : [] ≡ out = cc in rw (← none_left, ← none_written) (refl, tt)
transforms_read_back l ((name, ops) ∷ raw) ts {out} r w =
    let (p, read, r') =
      >>=-eq-ok (from_json l ops) (λ p. unmarshal_transforms l raw >>= λ ts. ok ((name, p) ∷ ts))
        {out = ts} r in
    let (rest, more, made) =
      >>=-eq-ok (unmarshal_transforms l raw) (λ ts. ok ((name, p) ∷ ts)) {out = ts} r' in
    let split : (name, p) ∷ rest ≡ ts = ground arith in
    let w' : marshal_transforms l ((name, p) ∷ rest) ≡ ok out =
      ap (marshal_transforms l) split ∙ w in
    let (ops', written, w'') =
      >>=-eq-ok (marshal_json l p)
        (λ ops'. marshal_transforms l rest >>= λ js. ok ((name, ops') ∷ js)) {out = out} w' in
    let (js, others, made_json) =
      >>=-eq-ok (marshal_transforms l rest) (λ js. ok ((name, ops') ∷ js)) {out = out} w'' in
    let split_json : (name, ops') ∷ js ≡ out = ground arith in
    let (back, steps) = transforms_read_back l raw rest more others in
    rw (← split, ← split_json)
      (
        rw (from_json-read_back l ops p read written, back) refl,
        (All-IsStep l ops p read written, steps),
      )
