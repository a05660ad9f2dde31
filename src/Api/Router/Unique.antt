-- ===== src/Api/Router/Unique.antt =====
-- internal/api/http/router.go: the routes do not overlap.
use maga.Base.{
  ◌≡◌, refl, arith, Bool, true, false, not, ◌&&◌, List, [], ◌∷◌, Str, str_eq, str_eq_iff,
  Bool-cases, inl, inr, if◌then◌else◌, length, ◌≤◌,
}
use maga.Api.Router.{
  Method, get, post, put, patch, delete, Endpoint, Segment, literal, parameter, wildcard, Route,
  same_method, pattern_matches, route_matches, new_router,
}

-- Whether some path may match both patterns.
overlap : List Segment → List Segment → Bool
unfolding str_eq
overlap [] [] = true
overlap [] (wildcard ∷ qs) = true
overlap [] (literal t ∷ qs) = false
overlap [] (parameter ∷ qs) = false
overlap (wildcard ∷ ps) qs = true
overlap (literal t ∷ ps) [] = false
overlap (parameter ∷ ps) [] = false
overlap (literal t ∷ ps) (wildcard ∷ qs) = true
overlap (parameter ∷ ps) (wildcard ∷ qs) = true
overlap (literal t ∷ ps) (literal u ∷ qs) = str_eq t u && overlap ps qs
overlap (literal t ∷ ps) (parameter ∷ qs) = overlap ps qs
overlap (parameter ∷ ps) (literal u ∷ qs) = overlap ps qs
overlap (parameter ∷ ps) (parameter ∷ qs) = overlap ps qs

matching_overlap :
    (ps qs : List Segment) (path : List Str)
    → pattern_matches ps path ≡ true
    → pattern_matches qs path ≡ true
    → overlap ps qs ≡ true
unfolding pattern_matches overlap
matching_overlap [] [] path h k = refl
matching_overlap [] (wildcard ∷ qs) path h k = refl
matching_overlap [] (literal t ∷ qs) [] h k = cc
matching_overlap [] (literal t ∷ qs) (s ∷ ss) h k = cc
matching_overlap [] (parameter ∷ qs) [] h k = cc
matching_overlap [] (parameter ∷ qs) (s ∷ ss) h k = cc
matching_overlap (wildcard ∷ ps) qs path h k = refl
matching_overlap (literal t ∷ ps) [] [] h k = cc
matching_overlap (literal t ∷ ps) [] (s ∷ ss) h k = cc
matching_overlap (parameter ∷ ps) [] [] h k = cc
matching_overlap (parameter ∷ ps) [] (s ∷ ss) h k = cc
matching_overlap (literal t ∷ ps) (wildcard ∷ qs) path h k = refl
matching_overlap (parameter ∷ ps) (wildcard ∷ qs) path h k = refl
matching_overlap (literal t ∷ ps) (literal u ∷ qs) [] h k = cc
matching_overlap (literal t ∷ ps) (literal u ∷ qs) (s ∷ ss) h k =
    ground (arith, matching_overlap ps qs ss, str_eq_iff t s, str_eq_iff u s, str_eq_iff t u)
matching_overlap (literal t ∷ ps) (parameter ∷ qs) [] h k = cc
matching_overlap (literal t ∷ ps) (parameter ∷ qs) (s ∷ ss) h k =
    ground (arith, matching_overlap ps qs ss)
matching_overlap (parameter ∷ ps) (literal u ∷ qs) [] h k = cc
matching_overlap (parameter ∷ ps) (literal u ∷ qs) (s ∷ ss) h k =
    ground (arith, matching_overlap ps qs ss)
matching_overlap (parameter ∷ ps) (parameter ∷ qs) [] h k = cc
matching_overlap (parameter ∷ ps) (parameter ∷ qs) (s ∷ ss) h k = matching_overlap ps qs ss h k

abbrev apart : Route → Route → Bool
apart r q = not (same_method r.method q.method && overlap r.pattern q.pattern)

apart_from : Route → List Route → Bool
unfolding overlap
apart_from r [] = true
apart_from r (q ∷ qs) = apart r q && apart_from r qs

pairwise_apart : List Route → Bool
unfolding apart_from
pairwise_apart [] = true
pairwise_apart (r ∷ rs) = apart_from r rs && pairwise_apart rs

new_router_apart : pairwise_apart new_router ≡ true
unfolding pairwise_apart
new_router_apart = refl

same_method-both :
    (m a b : Method) → same_method m a ≡ true → same_method m b ≡ true → same_method a b ≡ true
same_method-both get get b h k = k
same_method-both post post b h k = k
same_method-both put put b h k = k
same_method-both patch patch b h k = k
same_method-both delete delete b h k = k
same_method-both _ _ b h k = cc

-- The endpoints of the routes that match a request.
unfoldable pub matching : Method → List Str → List Route → List Endpoint
matching m path [] = []
matching m path (r ∷ rs) =
    let rest = matching m path rs in if route_matches m path r then r.endpoint ∷ rest else rest

apart_match :
    (m : Method) (path : List Str) (r q : Route)
    → apart r q ≡ true
    → route_matches m path r ≡ true
    → route_matches m path q ≡ false
apart_match m path r q h k = elim (Bool-cases (route_matches m path q)) [
  | inr no_match ↦ no_match
  | inl both ↦
      let same = same_method-both m r.method q.method (ground arith) (ground arith) in
      let over = matching_overlap r.pattern q.pattern path (ground arith) (ground arith) in
      ground (arith, same, over)
]

apart_matching :
    (m : Method) (path : List Str) (r : Route) (rs : List Route)
    → apart_from r rs ≡ true
    → route_matches m path r ≡ true
    → matching m path rs ≡ []
unfolding matching apart_from
apart_matching m path r [] h k = refl
apart_matching m path r (q ∷ qs) h k =
    let first : apart r q ≡ true = ground arith in
    rw (apart_match m path r q first k) (apart_matching m path r qs (ground arith) k)

at_most_one :
    (m : Method) (path : List Str) (rs : List Route)
    → pairwise_apart rs ≡ true
    → length (matching m path rs) ≤ 1
unfolding matching pairwise_apart
at_most_one m path [] h = omega arith
at_most_one m path (r ∷ rs) h = elim (Bool-cases (route_matches m path r)) [
  | inr passed ↦ rw passed (at_most_one m path rs (ground arith))
  | inl found ↦ rw (found, apart_matching m path r rs (ground arith) found) (omega arith)
]

-- No request matches two of the routes: whatever its method and its path, at most one endpoint answers it, and
-- so neither the order of the routes nor a preference of chi among them plays a part.
pub new_router_is_unambiguous :
    (m : Method) (path : List Str) → length (matching m path new_router) ≤ 1
new_router_is_unambiguous m path = at_most_one m path new_router new_router_apart
