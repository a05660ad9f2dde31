-- ===== src/Snmp/Agent.antt =====
-- internal/snmp/snmptest/agent.go: the fake agent, and `GetIdentity` against it.
use maga.Base.{
  ◌⊎◌, All, ℕ, ◌≡◌, refl, ap, ◌∙◌, arith, str_mem, str_eq_iff, Bool-cases, inl, inr, true, List, [],
  ◌∷◌, Option, none, some, Str, str_eq, if◌then◌else◌, Dict, lookup, insert, map, ok,
}
use maga.Discovery.Orchestrator.{Identity}
use maga.Snmp.{
  PduValue, nil, SnmpPdu, SnmpVersion, Connection, Gosnmp, normalize_oid, oid_sys_descr,
  oid_sys_object_id, oid_sys_up_time, oid_sys_name, requested, no_identity, read_variables,
  split_host_port, to_gosnmp_version, get_identity, with_target, with_version, after_connect,
  after_get,
}
use maga.Snmp.Reads.{
  IsUndotted, is_named-normalize_oid, last_value, IsText, IsObjectId, IsTicks, IsRead,
  read_variables_lem,
}

-- `Agent`, without its socket
pub record Agent : Type 0 where
  pub community : Str
  pub values : Dict PduValue

abbrev normalize_entry : Dict PduValue → Str × PduValue → Dict PduValue
normalize_entry d (oid, v) = insert (normalize_oid oid) v d

-- The loop of `NewStandaloneAgent` over the values.
unfoldable pub normalized : List (Str × PduValue) → Dict PduValue → Dict PduValue
unfolding insert normalize_oid
normalized [] d = d
normalized (x ∷ xs) d = normalized xs (normalize_entry d x)

abbrev pub new_standalone_agent : Str → Dict PduValue → Agent
new_standalone_agent community values = record {
  community = community;
  values = normalized values [];
}

abbrev pub value_or_nil : Option PduValue → PduValue
value_or_nil none = nil
value_or_nil (some v) = v

-- A variable of the response: an OID that is not in the table is answered with no value.
abbrev pub response_pdu : Agent → Str → SnmpPdu
response_pdu a name = record {
  name = name;
  value = value_or_nil (lookup (normalize_oid name) a.values);
}

-- `respond` to the decoded request: another community is dropped.
unfoldable pub respond : Agent → Str → List Str → Option (List SnmpPdu)
unfolding lookup normalize_oid str_eq
respond a community names =
    if str_eq community a.community then some (map (response_pdu a) names) else none

-- What the variables of a response have for an OID: its value in the table, if it was asked for.
last_value-respond :
    (a : Agent) (oid : Str) (names : List Str)
    → IsUndotted oid
    → last_value oid (map (response_pdu a) names) ≡ (
        if str_mem oid (map normalize_oid names)
        then some (value_or_nil (lookup oid a.values))
        else none)
unfolding last_value str_mem
last_value-respond a oid [] undotted = refl
last_value-respond a oid (name ∷ names) undotted =
    let rest = last_value-respond a oid names undotted in
    let named = is_named-normalize_oid name oid undotted in
    elim (Bool-cases (str_mem oid (map normalize_oid names))) [
      | inl later ↦
          let e : last_value oid (map (response_pdu a) names)
              ≡ some (value_or_nil (lookup oid a.values)) =
            rw later at rest in
          elim (Bool-cases (str_eq (normalize_oid name) oid)) [
            | inl same ↦ rw (e, same) refl
            | inr differ ↦ rw (e, differ, later) refl
          ]
      | inr never ↦
          let e : last_value oid (map (response_pdu a) names) ≡ none = rw never at rest in
          elim (Bool-cases (str_eq (normalize_oid name) oid)) [
            | inl same ↦
                let found : normalize_oid name ≡ oid =
                  (str_eq_iff (normalize_oid name) oid).0 same in
                rw (e, ← named, same) (ap (λ n. some (value_or_nil (lookup n a.values))) found)
            | inr differ ↦ rw (e, ← named, differ, never) refl
          ]
    ]

-- What the agent holds for an OID.
abbrev pub held : Agent → Str → PduValue
held a oid = value_or_nil (lookup oid a.values)

-- The names ask for the OIDs, each written with or without a leading dot.
abbrev pub Asks : List Str → List Str → Type 0
Asks [] [] = Unit
Asks (n ∷ ns) (oid ∷ oids) = ((n ≡ oid) ⊎ (n ≡ b'.' ∷ oid)) × Asks ns oids
Asks [] (oid ∷ oids) = ⊥
Asks (n ∷ ns) [] = ⊥

undotted_name :
    (n oid : Str) → normalize_oid oid ≡ oid → (n ≡ oid) ⊎ (n ≡ b'.' ∷ oid) → normalize_oid n ≡ oid
unfolding normalize_oid
undotted_name n oid h (inl same) = rw same h
undotted_name n oid h (inr dotted) = rw dotted refl

Asks-normalize_oid :
    (ns oids : List Str)
    → All (λ oid. normalize_oid oid ≡ oid) oids
    → Asks ns oids
    → map normalize_oid ns ≡ oids
Asks-normalize_oid [] [] h asks = refl
Asks-normalize_oid [] (oid ∷ oids) h asks = absurd asks
Asks-normalize_oid (n ∷ ns) [] h asks = absurd asks
Asks-normalize_oid (n ∷ ns) (oid ∷ oids) (same, h) (named, asks) =
    rw (undotted_name n oid same named, Asks-normalize_oid ns oids h asks) refl

requested_undotted : All (λ oid. normalize_oid oid ≡ oid) requested
unfolding normalize_oid
requested_undotted = (refl, (refl, (refl, (refl, tt))))

last_value-requested :
    (a : Agent) (oid : Str) (names : List Str)
    → IsUndotted oid
    → Asks names requested
    → str_mem oid requested ≡ true
    → last_value oid (map (response_pdu a) names) ≡ some (held a oid)
last_value-requested a oid names undotted asks asked =
    last_value-respond a oid names undotted
    ∙ ap (λ b. if b then some (held a oid) else none)
        (ap (str_mem oid) (Asks-normalize_oid names requested requested_undotted asks) ∙ asked)

requested_has :
    (str_mem oid_sys_descr requested ≡ true)
    × (str_mem oid_sys_object_id requested ≡ true)
    × (str_mem oid_sys_name requested ≡ true)
    × (str_mem oid_sys_up_time requested ≡ true)
unfolding str_mem str_eq
requested_has = (refl, refl, refl, refl)

-- The identity says what the agent holds.
abbrev pub Describes : Agent → Identity → Type 0
Describes a i =
    IsText (held a oid_sys_descr) i.sys_descr
    × IsObjectId (held a oid_sys_object_id) i.sys_object_id
    × IsText (held a oid_sys_name) i.sys_name
    × IsTicks (held a oid_sys_up_time) i.sys_up_time

read_value :
    {A : Type 0} (means : PduValue → A → Type 0) (old new : A) (o : Option PduValue) (v : PduValue)
    → o ≡ some v
    → IsRead means old o new
    → means v new
read_value means old new o v found h = rw found at h

respond-Describes :
    (a : Agent) (names : List Str)
    → Asks names requested
    → Describes a (read_variables (map (response_pdu a) names) no_identity)
respond-Describes a names asks =
    let vs = map (response_pdu a) names in
    let r = read_variables vs no_identity in
    let (descr, object, name, time) = read_variables_lem vs no_identity in
    let (d, o, n, t) = requested_has in
    (
      read_value IsText [] r.sys_descr _ _ (last_value-requested a oid_sys_descr names refl asks d)
          descr,
      read_value IsObjectId [] r.sys_object_id _ _
          (last_value-requested a oid_sys_object_id names refl asks o) object,
      read_value IsText [] r.sys_name _ _ (last_value-requested a oid_sys_name names refl asks n)
          name,
      read_value IsTicks 0 r.sys_up_time _ _
          (last_value-requested a oid_sys_up_time names refl asks t) time,
    )

responds :
    (a : Agent) (community : Str) (names : List Str) (vs : List SnmpPdu)
    → respond a community names ≡ some vs
    → vs ≡ map (response_pdu a) names
unfolding respond
responds a community names vs h = ground arith

-- The client reads what the fake agent holds. If the target and the version are accepted and the connection is
-- made, and gosnmp returns the agent's response to the requested OIDs, written with or without a leading dot,
-- then `GetIdentity` returns an identity with the texts of the agent's description and name, its object id without
-- the dot at its start, and its up time; a value that the agent does not have reads as the text "<nil>", or as the
-- up time 0.
pub get_identity-respond :
    {S : Type 0}
    → (g : Gosnmp S) (a : Agent) (target host community version : Str) (port : ℕ) (v : SnmpVersion)
      (names : List Str) (vs : List SnmpPdu) (s s1 s2 : S)
    → split_host_port g.split_host_port target ≡ ok (host, port)
    → to_gosnmp_version version ≡ ok v
    → g.connect (record { target = host; port = port; community = community; version = v }) s
      ≡ (ok tt, s1)
    → Asks names requested
    → respond a community names ≡ some vs
    → g.get (record { target = host; port = port; community = community; version = v }) requested s1
      ≡ (ok (record { error = none; variables = vs }), s2)
    → (i : Identity) × (get_identity g target community version s ≡ (ok i, s2)) × Describes a i
unfolding get_identity
get_identity-respond g a target host community version port v names vs s s1 s2 split speaks
      connected asks answered got =
    let c : Connection = record {
      target = host;
      port = port;
      community = community;
      version = v;
    } in
    let i = read_variables vs no_identity in
    let same_response = responds a community names vs answered in
    (
      i,
      ap (λ x. with_target g target community version x s) split
          ∙ ap (λ x. with_version g target community (host, port) x s) speaks
          ∙ ap (after_connect g c target) connected
          ∙ ap (after_get g target) got,
      rw same_response (respond-Describes a names asks),
    )
