-- ===== src/Storage/WellFormed/Removed.antt =====
-- internal/storage/postgres: how the references of elements and of the history fare when a row is removed.
use maga.Base.{not, ◌≡◌, refl, arith, true, false, ◌&&◌, List, [], ◌∷◌, Option, none, some, ◌==◌}
use maga.Domain.{Uuid, Rule, Cluster, NetworkElement}
use maga.Assignment.{AssignmentHistory}
use maga.Storage.Tables.{has_cluster, has_rule, cluster_exists, rule_exists, refers_to}
use maga.Storage.Clusters
use maga.Storage.Rules
use maga.Storage.WellFormed.{element_references, history_references}

has_cluster-remove_rows :
    (k id : Uuid) (cs : List Cluster)
    → has_cluster k (Clusters.remove_rows id cs) ≡ (has_cluster k cs && not (k == id))
unfolding has_cluster Clusters.remove_rows
has_cluster-remove_rows k id [] = refl
has_cluster-remove_rows k id (c ∷ cs) = ground (arith, has_cluster-remove_rows k id cs)

pub has_rule-remove_rows :
    (k id : Uuid) (rs : List Rule)
    → has_rule k (Rules.remove_rows id rs) ≡ (has_rule k rs && not (k == id))
unfolding has_rule Rules.remove_rows
has_rule-remove_rows k id [] = refl
has_rule-remove_rows k id (r ∷ rs) = ground (arith, has_rule-remove_rows k id rs)

cluster_exists-remove_rows :
    (id : Uuid) (cs : List Cluster) (o : Option Uuid)
    → refers_to id o ≡ false
    → cluster_exists o cs ≡ true
    → cluster_exists o (Clusters.remove_rows id cs) ≡ true
cluster_exists-remove_rows id cs none n h = refl
cluster_exists-remove_rows id cs (some k) n h = ground (arith, has_cluster-remove_rows k id cs)

rule_exists-remove_rows :
    (id : Uuid) (rs : List Rule) (o : Option Uuid)
    → refers_to id o ≡ false
    → rule_exists o rs ≡ true
    → rule_exists o (Rules.remove_rows id rs) ≡ true
rule_exists-remove_rows id rs none n h = refl
rule_exists-remove_rows id rs (some k) n h = ground (arith, has_rule-remove_rows k id rs)

pub element_references-remove_cluster :
    (id : Uuid) (cs : List Cluster) (rs : List Rule) (es : List NetworkElement)
    → Clusters.element_refers id es ≡ false
    → element_references cs rs es ≡ true
    → element_references (Clusters.remove_rows id cs) rs es ≡ true
unfolding element_references Clusters.element_refers
element_references-remove_cluster id cs rs [] n h = refl
element_references-remove_cluster id cs rs (e ∷ es) n h = ground (
  arith,
  cluster_exists-remove_rows id cs e.cluster_id,
  element_references-remove_cluster id cs rs es,
)

pub history_references-remove_cluster :
    (id : Uuid) (cs : List Cluster) (rs : List Rule) (es : List NetworkElement)
    → (hs : List AssignmentHistory) → Clusters.history_refers id hs ≡ false
    → history_references cs rs es hs ≡ true
    → history_references (Clusters.remove_rows id cs) rs es hs ≡ true
unfolding history_references Clusters.history_refers
history_references-remove_cluster id cs rs es [] n h = refl
history_references-remove_cluster id cs rs es (x ∷ hs) n h = ground (
  arith,
  cluster_exists-remove_rows id cs x.cluster_id,
  history_references-remove_cluster id cs rs es hs,
)

pub element_references-remove_rule :
    (id : Uuid) (cs : List Cluster) (rs : List Rule) (es : List NetworkElement)
    → Rules.elements_refer id es ≡ false
    → element_references cs rs es ≡ true
    → element_references cs (Rules.remove_rows id rs) es ≡ true
unfolding element_references Rules.elements_refer
element_references-remove_rule id cs rs [] n h = refl
element_references-remove_rule id cs rs (e ∷ es) n h = ground (
  arith,
  rule_exists-remove_rows id rs e.last_rule_id,
  element_references-remove_rule id cs rs es,
)

pub history_references-remove_rule :
    (id : Uuid) (cs : List Cluster) (rs : List Rule) (es : List NetworkElement)
    → (hs : List AssignmentHistory) → Rules.history_refers id hs ≡ false
    → history_references cs rs es hs ≡ true
    → history_references cs (Rules.remove_rows id rs) es hs ≡ true
unfolding history_references Rules.history_refers
history_references-remove_rule id cs rs es [] n h = refl
history_references-remove_rule id cs rs es (x ∷ hs) n h =
    ground (
      arith,
      rule_exists-remove_rows id rs x.rule_id,
      history_references-remove_rule id cs rs es hs,
    )
