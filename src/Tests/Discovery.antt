-- ===== src/Tests/Discovery.antt =====
-- internal/discovery: applied theorems. The text of an IPv6 address is not needed here.
use maga.Base.{
  ◌++◌, ◌≡◌, ◌-◌, suc, refl, arith, [], none, some, codes, map, ltb, ok, err, if◌then◌else◌,
}
use maga.Go.Strings.{cut_at, trim_space}
use maga.Go.Net
use maga.Go.Net.{Ipv6, parse_ip, parse_ipv4}
use maga.Discovery.Targets.{
  max_targets, expand_range, expand_targets, reversed_range, too_many_in_range,
}
use maga.Discovery.Targets.Bounds.{IsBounded, expand_targets-IsBounded}
use maga.Base.{ℕ, ◌+◌, ◌∷◌, List, Str, false, str_eq, Result, ok, err}
use maga.Domain.{NetworkElement, unassigned}
use maga.Discovery.Orchestrator.{
  Deps, DiscoveryJob, Identity, SnmpError, timeout, Move, launch, advance, Progress, running_scans,
  host_only, moves, scan_all,
}
use maga.Discovery.Orchestrator.Scans.{host_of}
use maga.Discovery.Orchestrator.Ends.{scan_all_lem}
use maga.Discovery.Orchestrator.Limit.{IsLimited, moves-IsLimited}
use maga.Discovery.Targets.Range.{address, addresses, expand_range_lem}

abbrev pub no_ipv6 : Ipv6
no_ipv6 = record { parse = λ s. none; format = λ ip. [] }

cut_range : cut_at b'-' (codes "10.0.0.254-10.0.1.1") ≡ some (codes "10.0.0.254", codes "10.0.1.1")
unfolding cut_at
cut_range = refl

first_address :
    parse_ip no_ipv6 (trim_space (codes "10.0.0.254")) ≡ some (Net.v4_prefix ++ address 167772414)
unfolding parse_ip trim_space parse_ipv4
first_address = refl

last_address :
    parse_ip no_ipv6 (trim_space (codes "10.0.1.1")) ≡ some (Net.v4_prefix ++ address 167772417)
unfolding parse_ip trim_space parse_ipv4
last_address = refl

expand_range_lem_example : expand_range no_ipv6 (codes "10.0.0.254-10.0.1.1") ≡ (
    if ltb 167772417 167772414
    then err (reversed_range (codes "10.0.0.254-10.0.1.1"))
    else if ltb (167772417 - 167772414) max_targets
    then ok (map (Net.ip_string no_ipv6) (addresses (suc (167772417 - 167772414)) 167772414))
    else err (too_many_in_range (codes "10.0.0.254-10.0.1.1")))
expand_range_lem_example =
    expand_range_lem no_ipv6 (codes "10.0.0.254-10.0.1.1") (codes "10.0.0.254") (codes "10.0.1.1")
      167772414 167772417 cut_range first_address last_address (omega arith)

expand_targets-IsBounded_example : IsBounded (expand_targets no_ipv6 (codes "10.0.0.0/20"))
expand_targets-IsBounded_example = expand_targets-IsBounded no_ipv6 (codes "10.0.0.0/20")

-- One device answers, and the state counts the calls that write.
abbrev one_device : Str → Result SnmpError Identity
one_device t =
    if str_eq t (codes "10.0.0.1")
    then ok (record { sys_descr = []; sys_object_id = []; sys_up_time = 0; sys_name = codes "sw" })
    else err (timeout (codes "timeout"))

abbrev device_element : Str → Identity → NetworkElement
device_element host i = record {
  id = 1;
  ip_address = host;
  sys_name = i.sys_name;
  cluster_id = none;
  assignment_status = unassigned;
  last_rule_id = none;
  deleted = false;
}

abbrev counting : Deps ℕ
counting = record {
  get_identity = λ t c v n. (one_device t, n);
  update_status = λ c id status m n. (ok tt, n + 1);
  insert_result = λ r n. (ok tt, n + 1);
  upsert_discovered = λ host i n. (ok (device_element host i), n + 1);
  list_enabled_ordered = λ n. (ok [], n);
  assign = λ id name rules trigger n. (ok tt, n + 1);
  is_cancelled = λ n. ltb 4 n;
  error_text = λ e. codes "error";
  split_host_port = λ t. none;
  concurrency = 2;
}

abbrev three_targets : DiscoveryJob
three_targets = record {
  id = 3;
  target_ips = codes "10.0.0.1" ∷ codes "10.0.0.2" ∷ codes "10.0.0.3" ∷ [];
  snmp_version = codes "v2c";
  snmp_community = codes "public";
}

abbrev interleaved : List Move
interleaved = launch ∷ launch ∷ launch ∷ launch ∷ advance 1 ∷ advance 0 ∷ launch ∷ advance 1 ∷ []

scan_all_lem_example :
    let p = scan_all counting three_targets [] interleaved 0 in
    (p.targets ≡ [])
    × (running_scans counting three_targets [] p.scans ≡ 0)
    × (map (host_of counting three_targets []) p.scans
          ++ map (host_only counting three_targets []) p.dropped
        ≡ map (host_only counting three_targets []) three_targets.target_ips)
scan_all_lem_example = scan_all_lem counting three_targets [] interleaved 0

abbrev at_start : Progress ℕ
at_start = record {
  targets = three_targets.target_ips;
  dropped = [];
  checked = false;
  scans = [];
  state = 0;
}

at_start-IsLimited : IsLimited counting three_targets [] at_start
unfolding running_scans
at_start-IsLimited = omega arith

moves-IsLimited_example :
    IsLimited counting three_targets [] (moves counting three_targets [] interleaved at_start)
moves-IsLimited_example =
    moves-IsLimited counting three_targets [] interleaved at_start at_start-IsLimited

-- The second scan has its result, and the first one runs on.
one_running :
    running_scans counting three_targets []
      (moves counting three_targets [] interleaved at_start).scans
    ≡ 1
unfolding moves str_eq
one_running = refl
