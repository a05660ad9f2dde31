-- ===== src/Discovery/Targets/Range.antt =====
-- internal/discovery/targets.go: the loop of `expandRange` lists the addresses between its bounds.
use maga.Base.{
  ℕ, zero, suc, ◌+◌, ◌-◌, ◌/◌, ◌%◌, ◌^◌, ◌≤◌, ◌<◌, ◌≡◌, refl, ap, sym, ◌∙◌, ◌++◌, arith, true, List,
  [], ◌∷◌, map, none, some, Str, str_eq, str_eq_iff, ok, err, ltb, if◌then◌else◌, Bool-cases, inl,
  inr, ◌==◌, ==_iff,
}
use maga.Go.Strings
use maga.Go.Net
use maga.Go.Net.{Ip, Ipv6}
use maga.Discovery.Targets.{
  reversed_range, too_many_in_range, max_targets, next_ip, add_one, ip_to_uint32, range_loop,
  expand_range,
}

-- The 4 bytes of a number below 2 ^ 32.
abbrev pub address : ℕ → Ip
address n = (n / 2 ^ 24) ∷ (n / 2 ^ 16 % 256) ∷ (n / 2 ^ 8 % 256) ∷ (n % 256) ∷ []

-- So many addresses from a first one.
abbrev pub addresses : ℕ → ℕ → List Ip
addresses zero n = []
addresses (suc k) n = address n ∷ addresses k (n + 1)

next_ip-address : (n : ℕ) → n + 1 < 2 ^ 32 → next_ip (address n) ≡ address (n + 1)
unfolding next_ip add_one
next_ip-address n h = ground arith

ip_to_uint32-address : (n : ℕ) → ip_to_uint32 (address n) ≡ n
unfolding ip_to_uint32
ip_to_uint32-address n = omega arith

ip_eq-address : (n m : ℕ) → Net.ip_eq (address n) (address m) ≡ (n == m)
unfolding Net.ip_eq
ip_eq-address n m = elim (Bool-cases (n == m)) [
  | inl same ↦
      let e : n ≡ m = (==_iff n m).0 same in
      (str_eq_iff (address n) (address m)).1 (ap address e) ∙ sym same
  | inr other ↦ elim (Bool-cases (str_eq (address n) (address m))) [
    | inr differ ↦ differ ∙ sym other
    | inl equal ↦
        let e : n ≡ m =
          sym (ip_to_uint32-address n)
          ∙ ap ip_to_uint32 ((str_eq_iff (address n) (address m)).0 equal)
          ∙ ip_to_uint32-address m in
        absurd (ground (arith, ==_iff n m))
  ]
]

range_loop-addresses :
    (room n m : ℕ)
    → n ≤ m
    → m < 2 ^ 32
    → range_loop room (address n) (address m)
      ≡ (if ltb (m - n) room then some (addresses (suc (m - n)) n) else none)
unfolding range_loop
range_loop-addresses zero n m h w = ground arith
range_loop-addresses (suc room) n m h w = elim (Bool-cases (n == m)) [
  | inl same ↦
      let e : m - n ≡ 0 = ground arith in
      let room_left : ltb 0 (suc room) ≡ true = ground arith in
      rw (ip_eq-address n m, same, e, room_left)
  | inr other ↦
      let lt : n < m = ground arith in
      let e : m - n ≡ suc (m - (n + 1)) = omega arith in
      let inside : ltb (suc (m - (n + 1))) (suc room) ≡ ltb (m - (n + 1)) room = ground arith in
      rw
        (
          ip_eq-address n m,
          other,
          next_ip-address n (omega arith),
          range_loop-addresses room (n + 1) m (omega arith) w,
          e,
          inside,
        )
        (elim (Bool-cases (ltb (m - (n + 1)) room)) [ inl fits ↦ rw fits | inr full ↦ rw full ])
]

to4-address : (n : ℕ) → Net.to4 (Net.v4_prefix ++ address n) ≡ some (address n)
unfolding Net.to4
to4-address n = refl

-- A range `a-b` of two IPv4 addresses `n` and `m`: it is refused if the first is above the second, or if it
-- has more than 4096 addresses, and else gives each address from `n` to `m`, once and in order.
pub expand_range_lem :
    (v6 : Ipv6) (spec a b : Str) (n m : ℕ)
    → Strings.cut_at b'-' spec ≡ some (a, b)
    → Net.parse_ip v6 (Strings.trim_space a) ≡ some (Net.v4_prefix ++ address n)
    → Net.parse_ip v6 (Strings.trim_space b) ≡ some (Net.v4_prefix ++ address m)
    → m < 2 ^ 32
    → expand_range v6 spec ≡ (
        if ltb m n
        then err (reversed_range spec)
        else if ltb (m - n) max_targets
        then ok (map (Net.ip_string v6) (addresses (suc (m - n)) n))
        else err (too_many_in_range spec))
unfolding expand_range
expand_range_lem v6 spec a b n m cut start end w = elim (Bool-cases (ltb m n)) [
  | inl before ↦ rw (
    cut,
    start,
    end,
    to4-address n,
    to4-address m,
    ip_to_uint32-address n,
    ip_to_uint32-address m,
    before,
  )
  | inr after ↦
      rw
        (
          cut,
          start,
          end,
          to4-address n,
          to4-address m,
          ip_to_uint32-address n,
          ip_to_uint32-address m,
          after,
          range_loop-addresses max_targets n m (ground arith) w,
        )
        (elim (Bool-cases (ltb (m - n) max_targets)) [ inl fits ↦ rw fits | inr full ↦ rw full ])
]
