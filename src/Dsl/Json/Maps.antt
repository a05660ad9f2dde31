-- ===== src/Dsl/Json/Maps.antt =====
-- internal/dsl/json.go: a map of pipelines, on each value of which `encoding/json` calls `MarshalJSON` and
-- `UnmarshalJSON`. The order of the keys makes no difference to what is read.
pub mod ReadBack
use maga.Base.{List, [], ◌∷◌, Dict, Result, ok, ◌>>=◌}
use maga.Go.Libs.{Libs}
use maga.Dsl.Types.{Pipeline}
use maga.Dsl.Json.{JsonOp, JsonError, marshal_json, from_json}

abbrev pub TransformsJson : Type 0
TransformsJson = Dict (List JsonOp)

-- `json.Marshal`, through `MarshalJSON`
unfoldable pub marshal_transforms : Libs → Dict Pipeline → Result JsonError TransformsJson
unfolding marshal_json
marshal_transforms l [] = ok []
marshal_transforms l ((name, p) ∷ ts) = do
  ops ← marshal_json l p
  rest ← marshal_transforms l ts
  ok ((name, ops) ∷ rest)

-- `json.Unmarshal`, through `UnmarshalJSON`
unfoldable pub unmarshal_transforms : Libs → TransformsJson → Result JsonError (Dict Pipeline)
unfolding from_json
unmarshal_transforms l [] = ok []
unmarshal_transforms l ((name, ops) ∷ rest) = do
  p ← from_json l ops
  ts ← unmarshal_transforms l rest
  ok ((name, p) ∷ ts)
