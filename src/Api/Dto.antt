-- ===== src/Api/Dto.antt =====
-- internal/api/http/dto: the bodies of requests and responses. An optional id is written as an empty text;
-- times are left out.
use maga.Base.{ℕ, ℤ, Bool, List, [], Option, none, some, Str, Dict, Result, ok, err}
use maga.Go.Libs.{Libs}
use maga.Dsl.Types.{Pipeline}
use maga.Dsl.Json.{JsonError}
use maga.Dsl.Json.Maps.{TransformsJson, unmarshal_transforms}
use maga.Domain.{Uuid, Rule, Cluster, NetworkElement, AssignmentStatus, TriggerSource}
use maga.Assignment.{AssignmentHistory}
use maga.RuleEngine.Evaluate.{Warning}
use maga.Storage.Jobs.{JobRow}
use maga.Discovery.Orchestrator.{DiscoveryJobResult, ResultStatus, JobStatus}

-- rule.go
pub record RuleRequest : Type 0 where
  pub name : Str
  pub description : Str
  pub pattern : Str
  pub capture_transforms : Dict Pipeline
  pub cluster_key_template : Str
  pub priority : ℤ
  pub is_enabled : Bool

-- The body of a rule request as JSON, but for its transforms the values that `encoding/json` reads.
pub record RuleJson : Type 0 where
  pub name : Str
  pub description : Str
  pub pattern : Str
  pub capture_transforms : TransformsJson
  pub cluster_key_template : Str
  pub priority : ℤ
  pub is_enabled : Bool

abbrev pub with_transforms :
    (JsonError → Str) → RuleJson → Result JsonError (Dict Pipeline) → Result Str RuleRequest
with_transforms text q (err e) = err (text e)
with_transforms text q (ok ts) = ok (record {
  name = q.name;
  description = q.description;
  pattern = q.pattern;
  capture_transforms = ts;
  cluster_key_template = q.cluster_key_template;
  priority = q.priority;
  is_enabled = q.is_enabled;
})

-- `Decode(&req)`, which calls `Pipeline.UnmarshalJSON`; a body that is no JSON of a request has its error already.
unfoldable pub decode_rule : Libs → (JsonError → Str) → Result Str RuleJson → Result Str RuleRequest
unfolding unmarshal_transforms
decode_rule l text (err m) = err m
decode_rule l text (ok q) = with_transforms text q (unmarshal_transforms l q.capture_transforms)

pub record RuleResponse : Type 0 where
  pub id : Str
  pub name : Str
  pub description : Str
  pub pattern : Str
  pub capture_transforms : Dict Pipeline
  pub cluster_key_template : Str
  pub priority : ℤ
  pub is_enabled : Bool

-- `ToDomain`; the id is the zero value.
abbrev pub to_domain : RuleRequest → Rule
to_domain q = record {
  id = 0;
  name = q.name;
  description = q.description;
  pattern = q.pattern;
  capture_transforms = q.capture_transforms;
  cluster_key_template = q.cluster_key_template;
  priority = q.priority;
  is_enabled = q.is_enabled;
}

pub record RuleTestRequest : Type 0 where
  pub hostname : Str
  pub pattern : Str
  pub capture_transforms : Dict Pipeline
  pub cluster_key_template : Str

pub record RuleTestResponse : Type 0 where
  pub matched : Bool
  pub raw_captures : Dict Str
  pub transformed_captures : Dict Str
  pub rendered_cluster_key : Str
  pub would_create_new_cluster : Bool
  pub warnings : List Warning

-- cluster.go
pub record ClusterResponse : Type 0 where
  pub id : Str
  pub lookup_key : Str
  pub display_name : Str
  pub description : Str
  pub member_count : ℕ

pub record ClusterRenameRequest : Type 0 where
  pub display_name : Str
  pub description : Option Str

-- element.go
pub record ElementResponse : Type 0 where
  pub id : Str
  pub ip_address : Str
  pub sys_name : Str
  pub assignment_status : AssignmentStatus
  pub cluster_id : Str
  pub last_rule_id : Str

pub record AssignmentHistoryResponse : Type 0 where
  pub id : Str
  pub cluster_id : Str
  pub rule_id : Str
  pub matched_pattern : Str
  pub raw_captures : Dict Str
  pub transformed_captures : Dict Str
  pub rendered_cluster_key : Str
  pub trigger_source : TriggerSource
  pub warnings : List Warning

-- discovery.go
pub record DiscoveryJobRequest : Type 0 where
  pub targets : Str
  pub snmp_version : Str
  pub snmp_community : Str

-- `CreatedAt` is left out.
pub record DiscoveryJobResponse : Type 0 where
  pub id : Str
  pub input_spec : Str
  pub snmp_version : Str
  pub status : JobStatus
  pub total_targets : ℕ
  pub started_at : Option ℕ
  pub completed_at : Option ℕ
  pub error_message : Str

pub record DiscoveryJobResultResponse : Type 0 where
  pub ip_address : Str
  pub status : ResultStatus
  pub sys_name : Str
  pub sys_descr : Str
  pub sys_object_id : Str
  pub error_message : Str
  pub element_id : Str

module _ (format_uuid : Uuid → Str) where
  abbrev optional_id : Option Uuid → Str
  optional_id none = []
  optional_id (some id) = format_uuid id

  abbrev pub rule_from_domain : Rule → RuleResponse
  rule_from_domain r = record {
    id = format_uuid r.id;
    name = r.name;
    description = r.description;
    pattern = r.pattern;
    capture_transforms = r.capture_transforms;
    cluster_key_template = r.cluster_key_template;
    priority = r.priority;
    is_enabled = r.is_enabled;
  }

  abbrev pub cluster_from_domain : Cluster × ℕ → ClusterResponse
  cluster_from_domain (c, members) = record {
    id = format_uuid c.id;
    lookup_key = c.lookup_key;
    display_name = c.display_name;
    description = c.description;
    member_count = members;
  }

  abbrev pub element_from_domain : NetworkElement → ElementResponse
  element_from_domain e = record {
    id = format_uuid e.id;
    ip_address = e.ip_address;
    sys_name = e.sys_name;
    assignment_status = e.assignment_status;
    cluster_id = optional_id e.cluster_id;
    last_rule_id = optional_id e.last_rule_id;
  }

  abbrev pub assignment_history_from_domain : AssignmentHistory → AssignmentHistoryResponse
  assignment_history_from_domain h = record {
    id = format_uuid h.id;
    cluster_id = optional_id h.cluster_id;
    rule_id = optional_id h.rule_id;
    matched_pattern = h.matched_pattern;
    raw_captures = h.raw_captures;
    transformed_captures = h.transformed_captures;
    rendered_cluster_key = h.rendered_cluster_key;
    trigger_source = h.trigger_source;
    warnings = h.warnings;
  }

  abbrev pub discovery_job_result_from_domain : DiscoveryJobResult → DiscoveryJobResultResponse
  discovery_job_result_from_domain r = record {
    ip_address = r.ip_address;
    status = r.status;
    sys_name = r.sys_name;
    sys_descr = r.sys_descr;
    sys_object_id = r.sys_object_id;
    error_message = r.error_message;
    element_id = optional_id r.element_id;
  }

  -- `COALESCE(error_message, '')` of the row
  abbrev error_text : Option Str → Str
  error_text none = []
  error_text (some m) = m

  abbrev pub discovery_job_from_domain : JobRow → DiscoveryJobResponse
  discovery_job_from_domain j = record {
    id = format_uuid j.id;
    input_spec = j.input_spec;
    snmp_version = j.snmp_version;
    status = j.status;
    total_targets = j.total_targets;
    started_at = j.started_at;
    completed_at = j.completed_at;
    error_message = error_text j.error_message;
  }
