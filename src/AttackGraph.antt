-- ===== src/AttackGraph.antt =====
-- server/detection/attack_graph.py
pub mod Cycling
use Prim.Native.String.{slice, len, compare}
use Prim.Native.Nat.{Ordering}
use text.Mathlib.Text.{starts_with}
use insider_threat_detection.Common.{
  String, Bool, ◌&&◌, none, some, List, [], ◌∷◌, ◌++◌, ◌==◌, if◌then◌else◌, is_empty, any,
}
use insider_threat_detection.Auth.{text_append}
use insider_threat_detection.Event.{event_type_text}
use insider_threat_detection.Database.{Db}
use insider_threat_detection.Database.Timeline.{Item, event_item, alert_item, get_timeline}

pub record Node : Type 0 where
  pub id : String
  pub type : String
  pub label : String

-- `origin` is the key "from".
pub record Edge : Type 0 where
  pub origin : String
  pub target : String
  pub relation : String

pub record Graph : Type 0 where
  pub nodes : List Node
  pub edges : List Edge

abbrev pub same_edge : Edge → Edge → Bool
same_edge a b = a.origin == b.origin && a.target == b.target && a.relation == b.relation

-- `if id not in nodes: nodes[id] = …` and `if edge not in edges: edges.append(edge)`
abbrev pub add_node : Node → List Node → List Node
add_node n nodes = if any (λ m. m.id == n.id) nodes then nodes else nodes ++ n ∷ []

abbrev pub add_edge : Edge → List Edge → List Edge
add_edge e edges = if any (λ f. same_edge f e) edges then edges else edges ++ e ∷ []

abbrev pub machine_id : String → String
machine_id hostname = text_append "machine:" hostname

abbrev pub device_node_id : String → String
device_node_id device_id = text_append "device:" device_id

abbrev pub action_id : String → String → String
action_id device_id event_type =
    text_append "action:" (text_append device_id (text_append ":" event_type))

abbrev pub machine_edge : String → String → Edge
machine_edge hostname device_id = record {
  origin = machine_id hostname;
  target = device_node_id device_id;
  relation = "connected";
}

abbrev pub action_edge : String → String → Edge
action_edge device_id event_type = record {
  origin = device_node_id device_id;
  target = action_id device_id event_type;
  relation = event_type;
}

-- The body of the loop for an event; the event types of stored events are not empty.
abbrev pub add_event : String → String → String → Graph → Graph
add_event hostname device_id event_type g = if is_empty device_id then g else record {
  nodes =
      add_node (record { id = action_id device_id event_type; type = "action"; label = event_type })
        (add_node (record { id = device_node_id device_id; type = "device"; label = device_id })
          g.nodes);
  edges =
      add_edge (action_edge device_id event_type)
        (add_edge (machine_edge hostname device_id) g.edges);
}

abbrev pub add_item : String → Item → Graph → Graph
add_item hostname (event_item r) g = add_event hostname r.device_id (event_type_text r.event_type) g
add_item hostname (alert_item r) g = g

unfoldable pub add_items : String → List Item → Graph → Graph
add_items hostname [] g = g
add_items hostname (item ∷ items) g = add_items hostname items (add_item hostname item g)

abbrev pub machine_only : String → Graph
machine_only hostname = record {
  nodes = (record { id = machine_id hostname; type = "machine"; label = hostname }) ∷ [];
  edges = [];
}

unfoldable pub build_attack_graph : String → Db → Graph
unfolding add_items get_timeline
build_attack_graph hostname db =
    add_items hostname (get_timeline (some hostname) none none 500 db) (machine_only hostname)

-- Whether `actions_by_device` has the relation for the node.
abbrev pub has_action : List Edge → String → String → Bool
has_action edges node_id action = any (λ e. e.origin == node_id && e.relation == action) edges

abbrev pub is_cycled : List Edge → Edge → Bool
is_cycled edges e =
    starts_with e.origin "device:"
    && has_action edges e.origin "connected"
    && has_action edges e.origin "disconnected"

-- `node_id.split(":", 1)[1]` of an id that starts with "device:"
abbrev pub device_of : String → String
device_of node_id = slice node_id (len "device:") (len node_id)

-- Inserted in order, and once: the ids are the keys of a dict.
abbrev pub place : String → List String → List String
place x [] = x ∷ []
place x (y ∷ ys) =
    let rest = place x ys in
    elim (compare x y) [ Ordering.lt ↦ x ∷ y ∷ ys | Ordering.eq ↦ y ∷ ys | Ordering.gt ↦ y ∷ rest ]

abbrev pub names_of : List Edge → List Edge → List String
names_of edges [] = []
names_of edges (e ∷ rest) =
    let found = names_of edges rest in
    if is_cycled edges e then place (device_of e.origin) found else found

-- The devices of the finding; the code has no finding where there are none.
unfoldable pub cycled : Graph → List String
cycled g = names_of g.edges g.edges
