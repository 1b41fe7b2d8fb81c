-- ===== src/Dispatcher/Nodes.antt =====
-- crates/dispatcher/src/infrastructure/etcd/mod.rs: the SFU nodes that the dispatcher knows, kept by
-- the events of an etcd watch; and the key and the metadata under which a node registers
-- (sfu/src/infrastructure/etcd/mod.rs). Numbers of type `f32` are a parameter, as are serde_json's
-- `from_str` and the connection to etcd, whose answers and events are arguments.
pub mod Least
pub mod Watch
use Prim.Native.Nat.{Ordering}
use Prim.Native.String.{◌++◌ as str_append}
use waterbus_rs.Base.{
  ℕ, ◌≡◌, Bool, true, false, String, string_eq, str_eq, Option, none, some, List, [], ◌∷◌, ◌++◌,
  map, if◌then◌else◌, length,
}
use waterbus_rs.Base.Text.{last_segment, strip_prefix}
use waterbus_rs.Table.{Table, get, insert, remove}

-- `f32`
pub record Float : Type 1 where
  pub F32 : Type 0
  pub partial_cmp : F32 → F32 → Option Ordering
  pub zero : F32
  pub hundred : F32
  pub add : F32 → F32 → F32
  pub mul : F32 → F32 → F32
  pub sub : F32 → F32 → F32
  pub div : F32 → F32 → F32
  pub of_ℕ : ℕ → F32

-- `EtcdNode::register`: the key of a node. `DispatcherManager::new` watches "/sfu/nodes".
unfoldable pub node_key : String → String
node_key node_id = str_append "/sfu/nodes/" node_id

abbrev pub nodes_prefix : String
nodes_prefix = "/sfu/nodes"

module _ (f : Float) where
  pub record NodeMetadata : Type 0 where
    pub addr : String
    pub cpu : f.F32
    pub ram : f.F32
    pub group_id : String

  abbrev pub Nodes : Type 0
  Nodes = Table String NodeMetadata

  -- The rest is over serde_json's `from_str`.
  module _ (from_str : String → Option NodeMetadata) where
    unfoldable pub parse_node_info : String → String → Option (String × NodeMetadata)
    parse_node_info key val = elim (from_str val) [
      | none ↦ none
      | some metadata ↦ some (last_segment key, metadata)
    ]

    abbrev insert_parsed : Option (String × NodeMetadata) → Nodes → Nodes
    insert_parsed none nodes = nodes
    insert_parsed (some (id, metadata)) nodes = insert id metadata nodes

    insert_all : List (String × String) → Nodes → Nodes
    insert_all [] nodes = nodes
    insert_all ((key, val) ∷ kvs) nodes =
        insert_all kvs (insert_parsed (parse_node_info key val) nodes)

    -- `sync_nodes`, given the pairs that etcd answered.
    unfoldable pub sync_nodes : List (String × String) → Nodes → Nodes
    unfolding insert_all
    sync_nodes kvs nodes = insert_all kvs []

    -- The events of the watch that carry a key and value.
    pub data Event : Type 0 where
      put : String → String → Event
      delete : String → Event

    abbrev removed : Option String → Nodes → Nodes × List String
    removed none nodes = (nodes, [])
    removed (some id) nodes = (remove id nodes, id ∷ [])

    -- The body of the loops of `start_watch`: the nodes, and the ids of the `NodeTerminated`
    -- callbacks that are sent.
    unfoldable pub watch_event : String → Event → Nodes → Nodes × List String
    watch_event prefix (put key val) nodes = (insert_parsed (parse_node_info key val) nodes, [])
    watch_event prefix (delete key) nodes = removed (strip_prefix key prefix) nodes

    unfoldable pub watch : String → List Event → Nodes → Nodes × List String
    watch prefix [] nodes = (nodes, [])
    watch prefix (e ∷ es) nodes =
        let (nodes', sent) = watch_event prefix e nodes in
        let (nodes'', more) = watch prefix es nodes' in (nodes'', sent ++ more)

  -- The comparison of `get_node_least`: is the first greater?
  abbrev is_gt : Option Ordering → Bool
  is_gt none = false
  is_gt (some Ordering.gt) = true
  is_gt (some _) = false

  abbrev pub greater : NodeMetadata → NodeMetadata → Bool
  greater a b = is_gt (f.partial_cmp a.cpu b.cpu)

  -- `filter` and `min_by`, which keeps the first of several least items.
  unfoldable pub least_from :
      String → Option (String × NodeMetadata) → Nodes → Option (String × NodeMetadata)
  least_from group best [] = best
  least_from group none (e ∷ rest) =
      least_from group (if str_eq e.1.group_id group then some e else none) rest
  least_from group (some best) (e ∷ rest) =
      least_from group
        (some
          (if str_eq e.1.group_id group then (if greater best.1 e.1 then e else best) else best))
        rest

  unfoldable pub get_node_least : String → Nodes → Option (String × NodeMetadata)
  get_node_least group nodes = least_from group none nodes

  unfoldable pub get_node_by_id : String → Nodes → Option NodeMetadata
  get_node_by_id id nodes = get id nodes

  unfoldable pub sum_idle : List f.F32 → f.F32 → f.F32
  sum_idle [] acc = acc
  sum_idle (usage ∷ rest) acc = sum_idle rest (f.add acc (f.sub f.hundred usage))

  -- `get_free_cpu`, given the usage of each CPU.
  unfoldable pub get_free_cpu : List f.F32 → Option f.F32
  unfolding sum_idle
  get_free_cpu usages = some (f.div (sum_idle usages f.zero) (f.of_ℕ (length usages)))

  -- `get_free_ram`, given the total and the free memory.
  unfoldable pub get_free_ram : f.F32 → f.F32 → Option f.F32
  get_free_ram total free =
      if is_gt (f.partial_cmp total f.zero) then some (f.mul (f.div free total) f.hundred) else none

  abbrev pub or_zero : Option f.F32 → f.F32
  or_zero none = f.zero
  or_zero (some x) = x

  -- The metadata that a node writes at each tick of its task.
  unfoldable pub updated_metadata : String → String → List f.F32 → f.F32 → f.F32 → NodeMetadata
  updated_metadata node_ip group_id usages total free = record {
    addr = node_ip;
    cpu = or_zero (get_free_cpu usages);
    ram = or_zero (get_free_ram total free);
    group_id = group_id;
  }
