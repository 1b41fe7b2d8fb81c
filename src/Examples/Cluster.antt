-- ===== src/Examples/Cluster.antt =====
-- The nodes that a dispatcher knows.
use Prim.Native.String.{◌++◌ as str_append}
use Prim.Native.Nat.{Ordering, lt, eq, gt}
use waterbus_rs.Base.{
  ℕ, ◌+◌, ◌-◌, ◌*◌, ◌/◌, ◌≡◌, refl, false, String, string_eq, str_eq, Option, none, some, List, [],
  ◌∷◌, ltb, arith, if◌then◌else◌,
}
use waterbus_rs.Table.{get}
use waterbus_rs.Table.Keys.{IsMap}
use waterbus_rs.Dispatcher.Nodes.{
  Float, NodeMetadata, Nodes, node_key, nodes_prefix, delete, watch, watch_event, sync_nodes,
  get_node_least, least_from,
}
use waterbus_rs.Dispatcher.Nodes.Watch.{deleted_node_stays}
use waterbus_rs.Dispatcher.Nodes.Least.{IsOrdered, exceeds, chosen_node}

-- Numbers without a fraction.
abbrev pub compare : ℕ → ℕ → Option Ordering
compare a b = if ltb a b then some lt else if ltb b a then some gt else some eq

abbrev pub float : Float
float = record {
  F32 = ℕ;
  partial_cmp = compare;
  zero = 0;
  hundred = 100;
  add = λ a b. a + b;
  mul = λ a b. a * b;
  sub = λ a b. a - b;
  div = λ a b. a / b;
  of_ℕ = λ n. n;
}

ordered : IsOrdered float
ordered = record {
  irrefl = λ a. ground arith;
  asymm = λ a b h. ground arith;
  trans = λ a b c h k. ground arith;
}

abbrev pub node : String → ℕ → NodeMetadata float
node addr cpu = record { addr = addr; cpu = cpu; ram = 50; group_id = "g" }

abbrev pub nodes : Nodes float
nodes = ("n1", node "10.0.0.1" 80) ∷ ("n2", node "10.0.0.2" 20) ∷ []

pub chosen : get_node_least float "g" nodes ≡ some ("n2", node "10.0.0.2" 20)
unfolding get_node_least least_from
chosen = refl

abbrev read_node : String → Option (NodeMetadata float)
read_node val = if str_eq val "{n3}" then some (node "10.0.0.3" 90) else none

abbrev answered_by_etcd : List (String × String)
answered_by_etcd = ("/sfu/nodes/n3", "{n3}") ∷ []

deleted_node_stays_example :
    (get "n3"
        (watch_event float read_node nodes_prefix
          (delete (node_key "n3"))
          (watch float read_node nodes_prefix []
            (sync_nodes float read_node answered_by_etcd [])).0).0
      ≡ get "n3"
          (watch float read_node nodes_prefix []
            (sync_nodes float read_node answered_by_etcd [])).0)
    × ((watch_event float read_node nodes_prefix
          (delete (node_key "n3"))
          (watch float read_node nodes_prefix []
            (sync_nodes float read_node answered_by_etcd [])).0).1
        ≡ str_append "/" "n3" ∷ [])
deleted_node_stays_example = deleted_node_stays float read_node answered_by_etcd [] "n3" "n3"

nodes-IsMap : IsMap nodes
nodes-IsMap = unfold get in (refl, (refl, tt))

known : get "n1" nodes ≡ some (node "10.0.0.1" 80)
unfolding get
known = refl

chosen_node_example :
    (get "n2" nodes ≡ some (node "10.0.0.2" 20))
    × ((node "10.0.0.2" 20).group_id ≡ "g")
    × (exceeds float 20 80 ≡ false)
chosen_node_example =
    chosen_node float ordered "g" nodes nodes-IsMap "n2" "n1" (node "10.0.0.2" 20)
      (node "10.0.0.1" 80) chosen known refl
