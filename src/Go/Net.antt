-- ===== src/Go/Net.antt =====
-- `net.ParseIP`, `net.ParseCIDR` and the methods of `net.IP` and `net.IPNet`. An IP is its bytes, 4 or 16
-- of them; the text of an IPv6 address is left to the record `Ipv6`.
use maga.Base.{
  ℕ, ◌-◌, ◌*◌, ◌/◌, ◌^◌, Bool, ◌&&◌, List, [], ◌∷◌, ◌++◌, Option, none, some, Str, length, take,
  drop, map, leb, ltb, ◌==◌, if◌then◌else◌, str_eq,
}
use maga.Go.Strconv
use maga.Go.Strings

abbrev pub Ip : Type 0
Ip = List ℕ

-- The text form of IPv6 addresses, in 16 bytes.
pub record Ipv6 : Type 0 where
  pub parse : Str → Option Ip
  pub format : Ip → Str

-- The bytes of an IPv4 address inside 16 bytes.
abbrev pub v4_prefix : Ip
v4_prefix = 0 ∷ 0 ∷ 0 ∷ 0 ∷ 0 ∷ 0 ∷ 0 ∷ 0 ∷ 0 ∷ 0 ∷ 0xff ∷ 0xff ∷ []

-- A field of a dotted address: digits of a number below 256, with no leading zero.
abbrev small_octet : Option ℕ → Option ℕ
small_octet none = none
small_octet (some n) = if ltb n 256 then some n else none

unfoldable pub parse_octet : Str → Option ℕ
unfolding Strconv.unsigned
parse_octet [] = none
parse_octet (c ∷ []) = small_octet (Strconv.unsigned (c ∷ []))
parse_octet (c ∷ d ∷ s) = if c == b'0' then none else small_octet (Strconv.unsigned (c ∷ d ∷ s))

abbrev or_none : {A B : Type 0} → Option A → (A → Option B) → Option B
or_none none f = none
or_none (some a) f = f a

abbrev four : Option ℕ → Option ℕ → Option ℕ → Option ℕ → Option Ip
four (some a) (some b) (some c) (some d) = some (a ∷ b ∷ c ∷ d ∷ [])
four _ _ _ _ = none

-- Four fields between dots; a fourth dot is no digit of the last field.
unfoldable pub parse_ipv4 : Str → Option Ip
unfolding parse_octet Strings.cut_at
parse_ipv4 s = or_none (Strings.cut_at b'.' s) λ (a, s').
    or_none (Strings.cut_at b'.' s') λ (b, s'').
      or_none (Strings.cut_at b'.' s'')
        λ (c, d). four (parse_octet a) (parse_octet b) (parse_octet c) (parse_octet d)

-- `netip.ParseAddr` goes by the first separator.
pub data Family : Type 0 where
  dotted colons no_address : Family

family : Str → Family
family [] = no_address
family (c ∷ s) =
    if c == b'.'
    then dotted
    else if c == b':'
    then colons
    else if c == b'%'
    then no_address
    else family s

parse_by : Ipv6 → Family → Str → Option Ip
parse_by v6 dotted s = or_none (parse_ipv4 s) (λ ip. some (v4_prefix ++ ip))
parse_by v6 colons s = v6.parse s
parse_by v6 no_address s = none

-- `net.ParseIP`: 16 bytes
unfoldable pub parse_ip : Ipv6 → Str → Option Ip
unfolding family parse_by
parse_ip v6 s = parse_by v6 (family s) s

-- `IP.To4`
unfoldable pub to4 : Ip → Option Ip
unfolding str_eq
to4 ip =
    if length ip == 4
    then some ip
    else if length ip == 16 && str_eq (take 12 ip) v4_prefix
    then some (drop 12 ip)
    else none

abbrev join_dots : List Str → Str
join_dots [] = []
join_dots (s ∷ []) = s
join_dots (s ∷ t ∷ r) = s ++ b'.' ∷ join_dots (t ∷ r)

abbrev format_by : Ipv6 → Ip → Option Ip → Str
format_by v6 ip (some b) = join_dots (map Strconv.itoa b)
format_by v6 ip none = v6.format ip

-- `IP.String`
unfoldable pub ip_string : Ipv6 → Ip → Str
unfolding to4 Strconv.itoa
ip_string v6 ip = format_by v6 ip (to4 ip)

-- `IP.Equal` on addresses of the same length
unfoldable pub ip_eq : Ip → Ip → Bool
unfolding str_eq
ip_eq = str_eq

-- `IP.Mask` with the mask of `n` ones: each byte is cut to its share of the ones.
unfoldable pub mask : ℕ → Ip → Ip
mask n [] = []
mask n (b ∷ ip) = let w = 2 ^ (8 - n) in (b / w * w) ∷ mask (n - 8) ip

-- `IPNet`: the masked address, with 4 bytes where it was written with dots, and the ones of its mask.
pub record IpNet : Type 0 where
  pub network : Ip
  pub ones : ℕ

abbrev short : Ip → Option Ip → Ip
short ip (some b) = b
short ip none = ip

-- `networkNumberAndMask`: of a network of 16 bytes in the range of IPv4 the last 4 count.
abbrev short_ones : IpNet → ℕ
short_ones n =
    if length n.network == 16 && length (short n.network (to4 n.network)) == 4
    then n.ones - 96
    else n.ones

-- `IPNet.Contains`
unfoldable pub net_contains : IpNet → Ip → Bool
unfolding mask str_eq to4
net_contains n ip =
    let x = short ip (to4 ip) in
    let nn = short n.network (to4 n.network) in
    length x == length nn && str_eq (mask (short_ones n) nn) (mask (short_ones n) x)

-- `net.ParseCIDR`: the prefix length is a number of digits up to the bits of the address.
abbrev masked : Ip → Option ℕ → Option IpNet
masked ip none = none
masked ip (some n) =
    if leb n (8 * length ip) then some (record { network = mask n ip; ones = n }) else none

cidr_by : Ipv6 → Family → Str → Str → Option IpNet
unfolding parse_ipv4 mask Strconv.unsigned
cidr_by v6 dotted addr ones = or_none (parse_ipv4 addr) λ ip. masked ip (Strconv.unsigned ones)
cidr_by v6 colons addr ones = or_none (v6.parse addr) λ ip. masked ip (Strconv.unsigned ones)
cidr_by v6 no_address addr ones = none

unfoldable pub parse_cidr : Ipv6 → Str → Option IpNet
unfolding family cidr_by Strings.cut_at
parse_cidr v6 s = or_none (Strings.cut_at b'/' s) λ (addr, ones). cidr_by v6 (family addr) addr ones
