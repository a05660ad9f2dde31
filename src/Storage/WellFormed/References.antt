-- ===== src/Storage/WellFormed/References.antt =====
-- internal/storage/postgres: how the references of elements and of the history fare when a table changes.
use maga.Base.{◌≡◌, refl, arith, true, ◌||◌, ◌&&◌, List, [], ◌∷◌, ◌++◌, Option, none, some, Str}
use maga.Domain.{Uuid, Rule, Cluster, NetworkElement, AssignmentStatus}
use maga.Assignment.{AssignmentHistory}
use maga.Storage.Tables.{has_cluster, has_rule, cluster_exists, rule_exists}
use maga.Storage.Clusters
use maga.Storage.Elements
use maga.Storage.Elements.{has_element}
use maga.Storage.Rules
use maga.Storage.WellFormed.{element_references, history_references}

-- A table that keeps the ids of another.
abbrev pub KeepsClusters : List Cluster → List Cluster → Type 0
KeepsClusters cs cs' = (id : Uuid) → has_cluster id cs ≡ true → has_cluster id cs' ≡ true

abbrev pub KeepsRules : List Rule → List Rule → Type 0
KeepsRules rs rs' = (id : Uuid) → has_rule id rs ≡ true → has_rule id rs' ≡ true

abbrev pub KeepsElements : List NetworkElement → List NetworkElement → Type 0
KeepsElements es es' = (id : Uuid) → has_element id es ≡ true → has_element id es' ≡ true

cluster_exists-keep :
    (cs cs' : List Cluster) (o : Option Uuid)
    → KeepsClusters cs cs'
    → cluster_exists o cs ≡ true
    → cluster_exists o cs' ≡ true
cluster_exists-keep cs cs' none keep h = refl
cluster_exists-keep cs cs' (some id) keep h = keep id h

rule_exists-keep :
    (rs rs' : List Rule) (o : Option Uuid)
    → KeepsRules rs rs'
    → rule_exists o rs ≡ true
    → rule_exists o rs' ≡ true
rule_exists-keep rs rs' none keep h = refl
rule_exists-keep rs rs' (some id) keep h = keep id h

pub element_references-keep :
    (cs cs' : List Cluster) (rs rs' : List Rule) (es : List NetworkElement)
    → KeepsClusters cs cs'
    → KeepsRules rs rs'
    → element_references cs rs es ≡ true
    → element_references cs' rs' es ≡ true
unfolding element_references
element_references-keep cs cs' rs rs' [] kc kr h = refl
element_references-keep cs cs' rs rs' (e ∷ es) kc kr h = ground (
  arith,
  cluster_exists-keep cs cs' e.cluster_id kc,
  rule_exists-keep rs rs' e.last_rule_id kr,
  element_references-keep cs cs' rs rs' es kc kr,
)

pub history_references-keep :
    (cs cs' : List Cluster) (rs rs' : List Rule) (es es' : List NetworkElement)
    (hs : List AssignmentHistory)
    → KeepsClusters cs cs'
    → KeepsRules rs rs'
    → KeepsElements es es'
    → history_references cs rs es hs ≡ true
    → history_references cs' rs' es' hs ≡ true
unfolding history_references
history_references-keep cs cs' rs rs' es es' [] kc kr ke h = refl
history_references-keep cs cs' rs rs' es es' (x ∷ hs) kc kr ke h = ground (
  arith,
  ke x.element_id,
  cluster_exists-keep cs cs' x.cluster_id kc,
  rule_exists-keep rs rs' x.rule_id kr,
  history_references-keep cs cs' rs rs' es es' hs kc kr ke,
)

-- Appended and changed rows.
pub has_cluster-append :
    (id : Uuid) (cs ds : List Cluster)
    → has_cluster id (cs ++ ds) ≡ (has_cluster id cs || has_cluster id ds)
unfolding has_cluster
has_cluster-append id [] ds = refl
has_cluster-append id (c ∷ cs) ds = ground (arith, has_cluster-append id cs ds)

pub has_rule-append :
    (id : Uuid) (rs qs : List Rule) → has_rule id (rs ++ qs) ≡ (has_rule id rs || has_rule id qs)
unfolding has_rule
has_rule-append id [] qs = refl
has_rule-append id (r ∷ rs) qs = ground (arith, has_rule-append id rs qs)

pub has_element-append :
    (id : Uuid) (es ds : List NetworkElement)
    → has_element id (es ++ ds) ≡ (has_element id es || has_element id ds)
unfolding has_element
has_element-append id [] ds = refl
has_element-append id (e ∷ es) ds = ground (arith, has_element-append id es ds)

pub has_cluster-rename_rows :
    (k id : Uuid) (name : Str) (d : Option Str) (cs : List Cluster)
    → has_cluster k (Clusters.rename_rows id name d cs) ≡ has_cluster k cs
unfolding has_cluster Clusters.rename_rows
has_cluster-rename_rows k id name d [] = refl
has_cluster-rename_rows k id name d (c ∷ cs) =
    ground (arith, has_cluster-rename_rows k id name d cs)

pub has_element-refresh_rows :
    (k : Uuid) (ip name : Str) (es : List NetworkElement)
    → has_element k (Elements.refresh_rows ip name es) ≡ has_element k es
unfolding has_element Elements.refresh_rows
has_element-refresh_rows k ip name [] = refl
has_element-refresh_rows k ip name (e ∷ es) = ground (arith, has_element-refresh_rows k ip name es)

pub has_element-delete_rows :
    (k id : Uuid) (es : List NetworkElement)
    → has_element k (Elements.delete_rows id es) ≡ has_element k es
unfolding has_element Elements.delete_rows
has_element-delete_rows k id [] = refl
has_element-delete_rows k id (e ∷ es) = ground (arith, has_element-delete_rows k id es)

pub has_rule-replace_rows :
    (k : Uuid) (rule : Rule) (rs : List Rule)
    → has_rule k (Rules.replace_rows rule rs) ≡ has_rule k rs
unfolding has_rule Rules.replace_rows
has_rule-replace_rows k rule [] = refl
has_rule-replace_rows k rule (r ∷ rs) = ground (arith, has_rule-replace_rows k rule rs)

pub has_rule-put_priority :
    (k id : Uuid) (p : _) (rs : List Rule) → has_rule k (Rules.put_priority id p rs) ≡ has_rule k rs
unfolding has_rule Rules.put_priority
has_rule-put_priority k id p [] = refl
has_rule-put_priority k id p (r ∷ rs) = ground (arith, has_rule-put_priority k id p rs)

pub element_references-append :
    (cs : List Cluster) (rs : List Rule) (es ds : List NetworkElement)
    → element_references cs rs (es ++ ds)
      ≡ (element_references cs rs es && element_references cs rs ds)
unfolding element_references
element_references-append cs rs [] ds = refl
element_references-append cs rs (e ∷ es) ds = ground (arith, element_references-append cs rs es ds)

pub element_references-refresh_rows :
    (cs : List Cluster) (rs : List Rule) (ip name : Str) (es : List NetworkElement)
    → element_references cs rs (Elements.refresh_rows ip name es) ≡ element_references cs rs es
unfolding element_references Elements.refresh_rows
element_references-refresh_rows cs rs ip name [] = refl
element_references-refresh_rows cs rs ip name (e ∷ es) =
    ground (arith, element_references-refresh_rows cs rs ip name es)

pub element_references-delete_rows :
    (cs : List Cluster) (rs : List Rule) (id : Uuid) (es : List NetworkElement)
    → element_references cs rs (Elements.delete_rows id es) ≡ element_references cs rs es
unfolding element_references Elements.delete_rows
element_references-delete_rows cs rs id [] = refl
element_references-delete_rows cs rs id (e ∷ es) =
    ground (arith, element_references-delete_rows cs rs id es)

pub element_references-assign_rows :
    (cs : List Cluster) (rs : List Rule) (id : Uuid) (c r : Option Uuid) (st : AssignmentStatus)
    → (es : List NetworkElement) → cluster_exists c cs ≡ true
    → rule_exists r rs ≡ true
    → element_references cs rs es ≡ true
    → element_references cs rs (Elements.assign_rows id c r st es) ≡ true
unfolding element_references Elements.assign_rows
element_references-assign_rows cs rs id c r st [] hc hr h = refl
element_references-assign_rows cs rs id c r st (e ∷ es) hc hr h =
    ground (arith, element_references-assign_rows cs rs id c r st es)

pub history_references-append :
    (cs : List Cluster) (rs : List Rule) (es : List NetworkElement) (hs ks : List AssignmentHistory)
    → history_references cs rs es (hs ++ ks)
      ≡ (history_references cs rs es hs && history_references cs rs es ks)
unfolding history_references
history_references-append cs rs es [] ks = refl
history_references-append cs rs es (x ∷ hs) ks =
    ground (arith, history_references-append cs rs es hs ks)
