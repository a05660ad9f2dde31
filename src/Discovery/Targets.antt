-- ===== src/Discovery/Targets.antt =====
-- internal/discovery/targets.go: `ExpandTargets`. Where the code counts up to `MaxTargets` the model counts
-- down the room that is left.
pub mod Bounds
pub mod Range
use maga.Base.{
  ℕ, zero, suc, ◌+◌, ◌*◌, ◌^◌, ◌%◌, Bool, true, false, ◌&&◌, ◌||◌, List, [], ◌∷◌, ◌++◌, map, Option,
  none, some, Str, length, ltb, ◌==◌, if◌then◌else◌, Result, ok, err, ◌>>=◌, is_some,
}
use maga.Go.Strings
use maga.Go.Net
use maga.Go.Net.{Ip, Ipv6, IpNet}

pub data TargetError : Type 0 where
  unrecognized : Str → TargetError
  invalid_cidr : Str → TargetError
  too_many_in_cidr : Str → TargetError
  bad_bound : Str → TargetError
  only_ipv4 : Str → TargetError
  reversed_range : Str → TargetError
  too_many_in_range : Str → TargetError

-- `MaxTargets`
abbrev pub max_targets : ℕ
max_targets = 4096

-- The loop of `nextIP` from the last byte on: the bytes behind the `++`, and whether it carries.
add_one : Ip → Ip × Bool
add_one [] = ([], true)
add_one (b ∷ ip) =
    let (rest, carry) = add_one ip in
    if carry then ((b + 1) % 256 ∷ rest, (b + 1) % 256 == 0) else (b ∷ rest, false)

pub next_ip : Ip → Ip
unfolding add_one
next_ip ip = (add_one ip).0

-- `ipToUint32` of 4 bytes; the shifted bytes do not overlap, so `|` is a sum.
pub ip_to_uint32 : Ip → ℕ
ip_to_uint32 (a ∷ b ∷ c ∷ d ∷ []) = a * 2 ^ 24 + b * 2 ^ 16 + c * 2 ^ 8 + d
ip_to_uint32 _ = 0

abbrev pub cons_all : Ip → Option (List Ip) → Option (List Ip)
cons_all ip none = none
cons_all ip (some ips) = some (ip ∷ ips)

-- The loop of `expandRange`; `none` is too many addresses.
pub range_loop : ℕ → Ip → Ip → Option (List Ip)
unfolding next_ip
range_loop zero cur end = none
range_loop (suc room) cur end =
    let more = range_loop room (next_ip cur) end in
    cons_all cur (if Net.ip_eq cur end then some [] else more)

-- The loop of `expandCIDR`
pub cidr_loop : ℕ → Ip → IpNet → Option (List Ip)
unfolding next_ip
cidr_loop zero cur n = if Net.net_contains n cur then none else some []
cidr_loop (suc room) cur n =
    let more = cidr_loop room (next_ip cur) n in
    if Net.net_contains n cur then cons_all cur more else some []

module _ (v6 : Ipv6) where
  abbrev pub to_strings : TargetError → Option (List Ip) → Result TargetError (List Str)
  to_strings e none = err e
  to_strings e (some ips) = ok (map (Net.ip_string v6) ips)

  abbrev expand_network : Str → Option IpNet → Result TargetError (List Str)
  expand_network cidr none = err (invalid_cidr cidr)
  expand_network cidr (some n) =
      to_strings (too_many_in_cidr cidr) (cidr_loop max_targets n.network n)

  pub expand_cidr : Str → Result TargetError (List Str)
  expand_cidr cidr = expand_network cidr (Net.parse_cidr v6 cidr)

  abbrev expand_between : Str → Option Ip → Option Ip → Result TargetError (List Str)
  expand_between spec (some start) (some end) =
      if ltb (ip_to_uint32 end) (ip_to_uint32 start)
      then err (reversed_range spec)
      else to_strings (too_many_in_range spec) (range_loop max_targets start end)
  expand_between spec _ _ = err (only_ipv4 spec)

  abbrev expand_bounds : Str → Option Ip → Option Ip → Result TargetError (List Str)
  expand_bounds spec (some start) (some end) = expand_between spec (Net.to4 start) (Net.to4 end)
  expand_bounds spec _ _ = err (bad_bound spec)

  -- `strings.SplitN(spec, "-", 2)` of a text with a dash has two parts.
  abbrev expand_parts : Str → Option (Str × Str) → Result TargetError (List Str)
  expand_parts spec none = err (bad_bound spec)
  expand_parts spec (some (a, b)) =
      expand_bounds spec (Net.parse_ip v6 (Strings.trim_space a))
        (Net.parse_ip v6 (Strings.trim_space b))

  pub expand_range : Str → Result TargetError (List Str)
  expand_range spec = expand_parts spec (Strings.cut_at b'-' spec)

  abbrev expand_trimmed : Str → Option Ip → Result TargetError (List Str)
  expand_trimmed spec (some ip) = ok (Net.ip_string v6 ip ∷ [])
  expand_trimmed spec none =
      if is_some (Strings.cut_at b'/' spec)
      then expand_cidr spec
      else if is_some (Strings.cut_at b'-' spec)
      then expand_range spec
      else err (unrecognized spec)

  unfoldable pub expand_targets : Str → Result TargetError (List Str)
  unfolding expand_cidr expand_range
  expand_targets raw =
      let spec = Strings.trim_space raw in expand_trimmed spec (Net.parse_ip v6 spec)
