-- ===== src/Discovery/Targets/Bounds.antt =====
-- internal/discovery/targets.go: `ExpandTargets` never returns more than `MaxTargets` addresses.
use maga.Base.{
  ℕ, zero, suc, ◌≤◌, ◌≡◌, refl, arith, List, [], ◌∷◌, map, Option, none, some, Str, length, Result,
  ok, err, is_some, inl, inr, Bool-cases, ltb,
}
use maga.Go.Strings
use maga.Go.Net
use maga.Go.Net.{Ip, Ipv6, IpNet}
use maga.Discovery.Targets.{
  TargetError, max_targets, next_ip, range_loop, cidr_loop, to_strings, expand_network, expand_cidr,
  expand_between, expand_bounds, expand_parts, expand_range, expand_trimmed, expand_targets,
  ip_to_uint32, too_many_in_range, too_many_in_cidr,
}

-- At most so many, if there is a list.
abbrev AtMost : ℕ → Option (List Ip) → Type 0
AtMost n none = Unit
AtMost n (some ips) = length ips ≤ n

range_loop-AtMost : (room : ℕ) (cur end : Ip) → AtMost room (range_loop room cur end)
unfolding range_loop
range_loop-AtMost zero cur end = tt
range_loop-AtMost (suc room) cur end = ground (arith, range_loop-AtMost room (next_ip cur) end)

cidr_loop-AtMost : (room : ℕ) (cur : Ip) (n : IpNet) → AtMost room (cidr_loop room cur n)
unfolding cidr_loop
cidr_loop-AtMost zero cur n = ground arith
cidr_loop-AtMost (suc room) cur n = ground (arith, cidr_loop-AtMost room (next_ip cur) n)

-- A list within the limit, or an error.
abbrev pub IsBounded : Result TargetError (List Str) → Type 0
IsBounded (ok ts) = length ts ≤ max_targets
IsBounded (err e) = Unit

length-map {ℓ κ} :
    {A : Type ℓ} {B : Type κ} (f : A → B) (xs : List A) → length (map f xs) ≡ length xs
length-map f [] = refl
length-map f (x ∷ xs) = omega (arith, length-map f xs)

module _ (v6 : Ipv6) where
  to_strings-IsBounded :
      (e : TargetError) (o : Option (List Ip))
      → AtMost max_targets o
      → IsBounded (to_strings v6 e o)
  to_strings-IsBounded e none h = tt
  to_strings-IsBounded e (some ips) h = omega (arith, length-map (Net.ip_string v6) ips)

  expand_network-IsBounded : (cidr : Str) (n : Option IpNet) → IsBounded (expand_network v6 cidr n)
  expand_network-IsBounded cidr none = tt
  expand_network-IsBounded cidr (some n) =
      to_strings-IsBounded (too_many_in_cidr cidr) (cidr_loop max_targets n.network n)
        (cidr_loop-AtMost max_targets n.network n)

  expand_between-IsBounded :
      (spec : Str) (start end : Option Ip) → IsBounded (expand_between v6 spec start end)
  expand_between-IsBounded spec (some s) (some e) =
      elim (Bool-cases (ltb (ip_to_uint32 e) (ip_to_uint32 s))) [
        | inl before ↦ rw before tt
        | inr after ↦ rw after (
            to_strings-IsBounded (too_many_in_range spec) (range_loop max_targets s e)
              (range_loop-AtMost max_targets s e))
      ]
  expand_between-IsBounded spec (some s) none = tt
  expand_between-IsBounded spec none e = tt

  expand_bounds-IsBounded :
      (spec : Str) (start end : Option Ip) → IsBounded (expand_bounds v6 spec start end)
  expand_bounds-IsBounded spec (some s) (some e) =
      expand_between-IsBounded spec (Net.to4 s) (Net.to4 e)
  expand_bounds-IsBounded spec (some s) none = tt
  expand_bounds-IsBounded spec none e = tt

  expand_parts-IsBounded :
      (spec : Str) (p : Option (Str × Str)) → IsBounded (expand_parts v6 spec p)
  expand_parts-IsBounded spec none = tt
  expand_parts-IsBounded spec (some (a, b)) =
      expand_bounds-IsBounded spec (Net.parse_ip v6 (Strings.trim_space a))
        (Net.parse_ip v6 (Strings.trim_space b))

  expand_trimmed-IsBounded : (spec : Str) (o : Option Ip) → IsBounded (expand_trimmed v6 spec o)
  unfolding expand_cidr expand_range
  expand_trimmed-IsBounded spec (some ip) = omega arith
  expand_trimmed-IsBounded spec none = elim (Bool-cases (is_some (Strings.cut_at b'/' spec))) [
    | inl slash ↦ rw slash (expand_network-IsBounded spec (Net.parse_cidr v6 spec))
    | inr no_slash ↦ elim (Bool-cases (is_some (Strings.cut_at b'-' spec))) [
      | inl dash ↦ rw (no_slash, dash) (expand_parts-IsBounded spec (Strings.cut_at b'-' spec))
      | inr no_dash ↦ rw (no_slash, no_dash) tt
    ]
  ]

  -- Whatever the specification, `ExpandTargets` returns an error or at most 4096 addresses.
  pub expand_targets-IsBounded : (raw : Str) → IsBounded (expand_targets v6 raw)
  unfolding expand_targets
  expand_targets-IsBounded raw =
      expand_trimmed-IsBounded (Strings.trim_space raw) (Net.parse_ip v6 (Strings.trim_space raw))
