-- ===== src/Tests/Snmp.antt =====
-- internal/snmp: applied theorems.
use maga.Base.{inr, ◌≡◌, refl, [], ◌∷◌, some, none, Str, codes, List, map, ok, lookup}
use maga.Discovery.Orchestrator.{Identity}
use maga.Snmp.{
  bytes, text, uint32, SnmpPdu, version2c, Gosnmp, split_host_port, to_gosnmp_version, get_identity,
  pdu_string, normalize_oid, oid_sys_descr, oid_sys_object_id, oid_sys_up_time, oid_sys_name,
  no_identity, read_variables, requested,
}
use maga.Snmp.Reads.{last_value, IsRead, IsText, IsObjectId, IsTicks, read_variables_lem}
use maga.Snmp.Agent.{
  Agent, normalized, new_standalone_agent, respond, response_pdu, Asks, Describes,
  get_identity-respond,
}

abbrev out_of_order : List SnmpPdu
out_of_order =
    record { name = codes ".1.3.6.1.2.1.1.5.0"; value = bytes (codes "sw-ber") }
    ∷ record { name = codes "1.3.6.1.2.1.1.1.0"; value = text (codes "switch") }
    ∷ []

read_variables_lem_example :
    let r = read_variables out_of_order no_identity in
    IsRead IsText [] (last_value oid_sys_descr out_of_order) r.sys_descr
    × IsRead IsObjectId [] (last_value oid_sys_object_id out_of_order) r.sys_object_id
    × IsRead IsText [] (last_value oid_sys_name out_of_order) r.sys_name
    × IsRead IsTicks 0 (last_value oid_sys_up_time out_of_order) r.sys_up_time
read_variables_lem_example = read_variables_lem out_of_order no_identity

-- A device with no name.
abbrev device : Agent
device = new_standalone_agent (codes "public") (
    (codes ".1.3.6.1.2.1.1.1.0", bytes (codes "switch"))
    ∷ (codes "1.3.6.1.2.1.1.3.0", uint32 7)
    ∷ [])

abbrev dotted : List Str
dotted = map (λ oid. 46 ∷ oid) requested

abbrev answers : List SnmpPdu
answers = map (response_pdu device) dotted

abbrev pub to_device : Gosnmp Unit
to_device = record {
  split_host_port = λ s. none;
  connect = λ c s. (ok tt, s);
  get = λ c oids s. (ok (record { error = none; variables = answers }), s);
}

split_target :
    split_host_port to_device.split_host_port (codes "10.0.0.1") ≡ ok (codes "10.0.0.1", 161)
unfolding split_host_port
split_target = refl

speaks_v2c : to_gosnmp_version (codes "v2c") ≡ ok version2c
unfolding to_gosnmp_version
speaks_v2c = refl

asked : Asks dotted requested
asked = (inr refl, (inr refl, (inr refl, (inr refl, tt))))

answered : respond device (codes "public") dotted ≡ some answers
unfolding respond
answered = refl

get_identity-respond_example :
    (i : Identity) × (get_identity to_device (codes "10.0.0.1") (codes "public") (codes "v2c") tt
      ≡ (ok i, tt))
    × Describes device i
get_identity-respond_example =
    get_identity-respond to_device device (codes "10.0.0.1") (codes "10.0.0.1") (codes "public")
      (codes "v2c") 161 version2c dotted answers tt tt tt split_target speaks_v2c refl asked
      answered refl

-- A device that has no `sysName` gets the name "<nil>".
nameless : (read_variables answers no_identity).sys_name ≡ codes "<nil>"
unfolding read_variables lookup normalize_oid pdu_string normalized
nameless = refl
