-- ===== src/Snmp.antt =====
-- internal/snmp: `GoSNMPClient`. The protocol itself is the library gosnmp, which is a record here.
pub mod Reads
pub mod Agent
use maga.Base.{
  ℕ, ◌+◌, ◌-◌, ◌^◌, ◌%◌, ◌&&◌, List, [], ◌∷◌, Option, none, some, Str, codes, str_eq, ltb, ◌==◌,
  if◌then◌else◌, ℤ, pos, negsuc, Result, ok, err,
}
use maga.Go.Strings.{contains}
use maga.Go.Strconv.{itoa, parse_uint, format_int}
use maga.Discovery.Orchestrator.{Identity, SnmpError, timeout, failure}

-- The Go value in a variable: bytes, by the text that they are, a string, a number, nil, or another value, by
-- its `%v`.
pub data PduValue : Type 0 where
  bytes text : Str → PduValue
  uint32 uint : ℕ → PduValue
  int : ℤ → PduValue
  nil : PduValue
  another : Str → PduValue

-- `gosnmp.SnmpPDU`
pub record SnmpPdu : Type 0 where
  pub name : Str
  pub value : PduValue

pub data SnmpVersion : Type 0 where
  version1 version2c : SnmpVersion

-- The connection that the client sets up, and the packet that `Get` returns; the error of a device is the text
-- of its code, or none for `NoError`.
pub record Connection : Type 0 where
  pub target : Str
  pub port : ℕ
  pub community : Str
  pub version : SnmpVersion

pub record SnmpPacket : Type 0 where
  pub error : Option Str
  pub variables : List SnmpPdu

-- `net.SplitHostPort`, and `Connect` and `Get` of gosnmp, whose errors are their texts.
pub record Gosnmp (S : Type 0) : Type 0 where
  pub split_host_port : Str → Option (Str × Str)
  pub connect : Connection → S → Result Str Unit × S
  pub get : Connection → List Str → S → Result Str SnmpPacket × S

-- The errors of `GetIdentity`, by what their texts are made of.
pub data ClientError : Type 0 where
  invalid_port : Str → Str → ClientError
  unsupported_version : Str → ClientError
  connect_failed : Str → Str → ClientError
  timed_out : Str → ClientError
  get_failed : Str → Str → ClientError
  device_error : Str → Str → ClientError

abbrev pub oid_sys_descr : Str
oid_sys_descr = codes "1.3.6.1.2.1.1.1.0"

abbrev pub oid_sys_object_id : Str
oid_sys_object_id = codes "1.3.6.1.2.1.1.2.0"

abbrev pub oid_sys_up_time : Str
oid_sys_up_time = codes "1.3.6.1.2.1.1.3.0"

abbrev pub oid_sys_name : Str
oid_sys_name = codes "1.3.6.1.2.1.1.5.0"

abbrev pub default_port : ℕ
default_port = 161

-- `normalizeOID`
unfoldable pub normalize_oid : Str → Str
normalize_oid [] = []
normalize_oid (c ∷ s) = if c == b'.' then s else c ∷ s

-- `pduString`
unfoldable pub pdu_string : PduValue → Str
unfolding itoa
pdu_string (bytes s) = s
pdu_string (text s) = s
pdu_string (uint32 n) = itoa n
pdu_string (uint n) = itoa n
pdu_string (int z) = format_int z
pdu_string nil = codes "<nil>"
pdu_string (another s) = s

-- `pduUint32`; the conversions wrap around
unfoldable pub pdu_uint32 : PduValue → ℕ
pdu_uint32 (uint32 n) = n
pdu_uint32 (uint n) = n % 2 ^ 32
pdu_uint32 (int (pos n)) = n % 2 ^ 32
pdu_uint32 (int (negsuc n)) = 2 ^ 32 - 1 - n % 2 ^ 32
pdu_uint32 _ = 0

-- `toGoSNMPVersion`
unfoldable pub to_gosnmp_version : Str → Result ClientError SnmpVersion
unfolding str_eq
to_gosnmp_version v =
    if str_eq v (codes "v1")
    then ok version1
    else if str_eq v (codes "v2c")
    then ok version2c
    else err (unsupported_version v)

abbrev host_port : Str → Str → Option ℕ → Result ClientError (Str × ℕ)
host_port target host none = err (invalid_port target host)
host_port target host (some port) = ok (host, port)

abbrev split_or_default : Str → Option (Str × Str) → Result ClientError (Str × ℕ)
split_or_default target none = ok (target, default_port)
split_or_default target (some (host, port)) = host_port target host (parse_uint port 16)

-- `splitHostPort`
unfoldable pub split_host_port : (Str → Option (Str × Str)) → Str → Result ClientError (Str × ℕ)
unfolding parse_uint
split_host_port split target = split_or_default target (split target)

-- The identity with no field set.
abbrev pub no_identity : Identity
no_identity = record { sys_descr = []; sys_object_id = []; sys_up_time = 0; sys_name = [] }

-- One round of the loop over `result.Variables`: the switch on the normalized name.
abbrev pub read_variable : SnmpPdu → Identity → Identity
read_variable v i =
    let oid = normalize_oid v.name in
    if str_eq oid oid_sys_descr
    then record i { sys_descr = pdu_string v.value }
    else if str_eq oid oid_sys_object_id
    then record i { sys_object_id = normalize_oid (pdu_string v.value) }
    else if str_eq oid oid_sys_name
    then record i { sys_name = pdu_string v.value }
    else if str_eq oid oid_sys_up_time
    then record i { sys_up_time = pdu_uint32 v.value }
    else i

unfoldable pub read_variables : List SnmpPdu → Identity → Identity
unfolding normalize_oid pdu_string pdu_uint32 str_eq
read_variables [] i = i
read_variables (v ∷ vs) i = read_variables vs (read_variable v i)

abbrev pub requested : List Str
requested = oid_sys_descr ∷ oid_sys_object_id ∷ oid_sys_up_time ∷ oid_sys_name ∷ []

abbrev get_error : Str → Str → ClientError
get_error target message =
    if contains message (codes "timeout") then timed_out target else get_failed target message

abbrev pub read_packet : Str → Option Str → List SnmpPdu → Result ClientError Identity
read_packet target (some e) vs = err (device_error target e)
read_packet target none vs = ok (read_variables vs no_identity)

module _ {S : Type 0} (g : Gosnmp S) where
  abbrev pub after_get : Str → Result Str SnmpPacket × S → Result ClientError Identity × S
  after_get target (err m, s) = (err (get_error target m), s)
  after_get target (ok p, s) = (read_packet target p.error p.variables, s)

  abbrev pub after_connect :
      Connection → Str → Result Str Unit × S → Result ClientError Identity × S
  after_connect c target (err m, s) = (err (connect_failed target m), s)
  after_connect c target (ok u, s) = after_get target (g.get c requested s)

  abbrev pub with_version :
      Str → Str → Str × ℕ → Result ClientError SnmpVersion → S → Result ClientError Identity × S
  with_version target community (host, port) (err e) s = (err e, s)
  with_version target community (host, port) (ok version) s =
      let c : Connection = record {
        target = host;
        port = port;
        community = community;
        version = version;
      } in
      after_connect c target (g.connect c s)

  abbrev pub with_target :
      Str → Str → Str → Result ClientError (Str × ℕ) → S → Result ClientError Identity × S
  with_target target community version (err e) s = (err e, s)
  with_target target community version (ok host) s =
      with_version target community host (to_gosnmp_version version) s

  -- `GetIdentity`; closing the connection is left out
  unfoldable pub get_identity : Str → Str → Str → S → Result ClientError Identity × S
  unfolding split_host_port to_gosnmp_version read_variables contains
  get_identity target community version s =
      with_target target community version (split_host_port g.split_host_port target) s
