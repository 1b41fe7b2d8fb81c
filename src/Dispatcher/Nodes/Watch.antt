-- ===== src/Dispatcher/Nodes/Watch.antt =====
-- What the events of the watch do to the nodes.
use Prim.Native.String.{◌++◌ as str_append}
use text.Mathlib.TextLemmas.{append_assoc as str_append_assoc}
use waterbus_rs.Base.{
  ◌≡◌, refl, ◌∙◌, false, String, string_eq, str_eq, eq_iff, Option, none, some, List, [], ◌∷◌,
  arith, if◌then◌else◌,
}
use waterbus_rs.Base.Text.{
  has_slash, last_segment, strip_prefix, strip_prefix-append, last_segment-slash, last_segment_ne,
}
use waterbus_rs.Table.{get, get-insert, get-remove}
use waterbus_rs.Dispatcher.Nodes.{
  Float, NodeMetadata, Nodes, parse_node_info, insert_parsed, insert_all, sync_nodes, Event, put,
  delete, watch_event, removed, watch, node_key, nodes_prefix,
}

node_key-prefix : (id : String) → node_key id ≡ str_append nodes_prefix (str_append "/" id)
unfolding node_key
node_key-prefix id = str_append_assoc "/sfu/nodes" "/" id

strip-node_key : (id : String) → strip_prefix (node_key id) nodes_prefix ≡ some (str_append "/" id)
strip-node_key id = rw node_key-prefix (strip_prefix-append nodes_prefix (str_append "/" id))

module _ (f : Float) (from_str : String → Option (NodeMetadata f)) where
  -- No id begins with a slash.
  abbrev NoSlash : Nodes f → Type 0
  NoSlash nodes = (id : String) → get (str_append "/" id) nodes ≡ none

  parsed-NoSlash :
      (key : String) (o : Option (NodeMetadata f)) (nodes : Nodes f)
      → NoSlash nodes
      → NoSlash (
          insert_parsed f from_str
            (elim o [ none ↦ none | some metadata ↦ some (last_segment key, metadata) ])
            nodes)
  parsed-NoSlash key none nodes h id = h id
  parsed-NoSlash key (some m) nodes h id =
      get-insert (last_segment key) (str_append "/" id) m nodes
      ∙ ground (arith, h id, last_segment_ne key id, eq_iff (last_segment key) (str_append "/" id))

  insert_parsed-NoSlash :
      (key val : String) (nodes : Nodes f)
      → NoSlash nodes
      → NoSlash (insert_parsed f from_str (parse_node_info f from_str key val) nodes)
  unfolding parse_node_info
  insert_parsed-NoSlash key val nodes h id = parsed-NoSlash key (from_str val) nodes h id

  insert_all-NoSlash :
      (kvs : List (String × String)) (nodes : Nodes f)
      → NoSlash nodes
      → NoSlash (insert_all f from_str kvs nodes)
  unfolding insert_all
  insert_all-NoSlash [] nodes h = h
  insert_all-NoSlash ((key, val) ∷ kvs) nodes h =
      insert_all-NoSlash kvs _ (insert_parsed-NoSlash key val nodes h)

  removed-NoSlash :
      (o : Option String) (nodes : Nodes f) → NoSlash nodes → NoSlash (removed f from_str o nodes).0
  removed-NoSlash none nodes h id = h id
  removed-NoSlash (some j) nodes h id =
      get-remove j (str_append "/" id) nodes ∙ ground (arith, h id)

  watch-NoSlash :
      (prefix : String) (es : List (Event f from_str)) (nodes : Nodes f)
      → NoSlash nodes
      → NoSlash (watch f from_str prefix es nodes).0
  unfolding watch watch_event
  watch-NoSlash prefix [] nodes h = h
  watch-NoSlash prefix (put key val ∷ es) nodes h =
      watch-NoSlash prefix es _ (insert_parsed-NoSlash key val nodes h)
  watch-NoSlash prefix (delete key ∷ es) nodes h =
      watch-NoSlash prefix es _ (removed-NoSlash (strip_prefix key prefix) nodes h)

  -- Whatever etcd answered and whatever events came before, the event that a registered node's key
  -- was deleted removes no node: every id still has the metadata that it had, the node itself
  -- included. The callback that is sent names the id with a slash before it.
  pub deleted_node_stays :
      (kvs : List (String × String)) (es : List (Event f from_str)) (node_id id : String)
      → (get id
            (watch_event f from_str nodes_prefix
              (delete (node_key node_id))
              (watch f from_str nodes_prefix es (sync_nodes f from_str kvs [])).0).0
          ≡ get id (watch f from_str nodes_prefix es (sync_nodes f from_str kvs [])).0)
        × ((watch_event f from_str nodes_prefix
              (delete (node_key node_id))
              (watch f from_str nodes_prefix es (sync_nodes f from_str kvs [])).0).1
            ≡ str_append "/" node_id ∷ [])
  unfolding watch_event sync_nodes get
  deleted_node_stays kvs es node_id id =
      let nodes = (watch f from_str nodes_prefix es (insert_all f from_str kvs [])).0 in
      let clean : NoSlash nodes =
        watch-NoSlash nodes_prefix es _ (insert_all-NoSlash kvs [] (λ j. refl)) in
      rw strip-node_key (
        get-remove (str_append "/" node_id) id nodes
            ∙ ground (arith, clean node_id, eq_iff (str_append "/" node_id) id),
        refl,
      )

  -- A node whose id has no slash, and whose metadata can be read, is known by its id once the event
  -- of its registration has come; the other nodes stay as they are, and no callback is sent.
  pub registered_node_known :
      (node_id id val : String) (m : NodeMetadata f) (nodes : Nodes f)
      → has_slash node_id ≡ false
      → from_str val ≡ some m
      → (get id (watch_event f from_str nodes_prefix (put (node_key node_id) val) nodes).0
          ≡ (if str_eq node_id id then some m else get id nodes))
        × ((watch_event f from_str nodes_prefix (put (node_key node_id) val) nodes).1 ≡ [])
  unfolding watch_event parse_node_info
  registered_node_known node_id id val m nodes plain readable =
      rw (readable, parse_node_info, node_key-prefix, last_segment-slash nodes_prefix node_id plain)
        (get-insert node_id id m nodes, refl)
