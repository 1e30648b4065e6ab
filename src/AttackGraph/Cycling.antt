-- ===== src/AttackGraph/Cycling.antt =====
-- Which devices the graph shows as connected and disconnected.
use Prim.Native.String.{slice, len}
use Prim.Native.Char.{code}
use insider_threat_detection.ThreatFeed.{has}
use text.Mathlib.Text.{starts_with}
use text.Mathlib.TextEquality.{starts_with_iff}
use text.Mathlib.TextPositions.{slice-append_right, len-append, starts_with-append}
use text.Mathlib.TextLemmas.{append_cancel_left, cons-append, head-eq_of_cons-eq}
use insider_threat_detection.Common.{
  String, ◌≡◌, refl, sym, ap, ◌∙◌, inl, inr, Bool, true, false, not, ◌&&◌, ◌||◌, none, some, List,
  [], ◌∷◌, arith, ◌==◌, eq_iff, eq_refl, is_empty, Bool-cases, eq_of_==, ==-false_of_ne,
  ne_of_==-false, any, any-append, false≢true,
}
use insider_threat_detection.Event.{event_type_text}
use insider_threat_detection.Database.{Db}
use insider_threat_detection.Database.Timeline.{Item, event_item, alert_item, get_timeline}
use insider_threat_detection.AttackGraph.{
  machine_edge, action_edge, machine_only, build_attack_graph, Edge, Graph, same_edge, add_edge,
  machine_id, device_node_id, add_event, add_item, add_items, has_action, is_cycled, device_of,
  place, names_of, cycled,
}

-- Whether an item is an event of the device with the type.
abbrev pub shows : String → String → Item → Bool
shows device_id event_type (event_item r) =
    not (is_empty r.device_id)
    && r.device_id == device_id
    && event_type_text r.event_type == event_type
shows device_id event_type (alert_item r) = false

m-ne-d : (s t : String) → Path String (String.◌∷◌ "m" s) (String.◌∷◌ "d" t) → ⊥
m-ne-d s t p = let q : 109 ≡ 100 = ap code (head-eq_of_cons-eq p) in omega (arith, q)

known-edge :
    (e : Edge) (edges : List Edge) (node_id action : String)
    → any (λ f. same_edge f e) edges ≡ true
    → has_action edges node_id action
      ≡ (has_action edges node_id action || (e.origin == node_id && e.relation == action))
known-edge e [] node_id action h = cc
known-edge e (f ∷ edges) node_id action h = ground (
  arith,
  h,
  known-edge e edges node_id action,
  eq_iff f.origin e.origin,
  eq_iff f.relation e.relation,
)

module _ (device_id : String) where
  machine-ne-device :
      (hostname : String) → (machine_id hostname == device_node_id device_id) ≡ false
  machine-ne-device hostname = ==-false_of_ne (machine_id hostname) (device_node_id device_id) (λ p.
      m-ne-d _ _
        (sym (cons-append "m" "achine:" hostname) ∙ p ∙ cons-append "d" "evice:" device_id))

  device-eq : (d : String) → (device_node_id d == device_node_id device_id) ≡ (d == device_id)
  device-eq d = elim (Bool-cases (d == device_id)) [
    | inl e ↦ rw (e, eq_of_== d device_id e) (eq_refl (device_node_id device_id))
    | inr n ↦ rw n (
        ==-false_of_ne _ _
          (λ p. ne_of_==-false d device_id n (append_cancel_left "device:" d device_id p)))
  ]

  has_action-add_edge :
      (action : String) (e : Edge) (edges : List Edge)
      → has_action (add_edge e edges) (device_node_id device_id) action ≡ (
          has_action edges (device_node_id device_id) action
          || (e.origin == device_node_id device_id && e.relation == action))
  has_action-add_edge action e edges = elim (Bool-cases (any (λ f. same_edge f e) edges)) [
    | inl known ↦ rw known (known-edge e edges (device_node_id device_id) action known)
    | inr new ↦ rw (new, any-append) (ground arith)
  ]

  has_action-add_event :
      (action hostname d t : String) (g : Graph)
      → has_action (add_event hostname d t g).edges (device_node_id device_id) action ≡ (
          has_action g.edges (device_node_id device_id) action
          || (not (is_empty d) && d == device_id && t == action))
  has_action-add_event action hostname d t g = elim (Bool-cases (is_empty d)) [
    | inl e ↦ rw e (ground arith)
    | inr n ↦ rw n (
        has_action-add_edge action (action_edge d t) (add_edge (machine_edge hostname d) g.edges)
        ∙ rw
            (
              has_action-add_edge action (machine_edge hostname d) g.edges,
              machine-ne-device hostname,
              device-eq d,
            )
            (ground arith))
  ]

  has_action-add_items :
      (action hostname : String) (items : List Item) (g : Graph)
      → has_action (add_items hostname items g).edges (device_node_id device_id) action ≡ (
          has_action g.edges (device_node_id device_id) action
          || any (shows device_id action) items)
  unfolding add_items
  has_action-add_items action hostname [] g = ground arith
  has_action-add_items action hostname (event_item r ∷ items) g =
      has_action-add_items action hostname items (add_item hostname (event_item r) g)
      ∙ rw (has_action-add_event action hostname r.device_id (event_type_text r.event_type) g)
          (ground arith)
  has_action-add_items action hostname (alert_item r ∷ items) g =
      has_action-add_items action hostname items g

  has-place :
      (x : String) (xs : List String)
      → has device_id (place x xs) ≡ (x == device_id || has device_id xs)
  has-place x [] = refl
  has-place x (y ∷ ys) = ground (arith, has-place x ys, eq_iff x y)

  has-names_of :
      (edges rest : List Edge)
      → has device_id (names_of edges rest)
        ≡ any (λ e. is_cycled edges e && device_of e.origin == device_id) rest
  has-names_of edges [] = refl
  has-names_of edges (e ∷ rest) = elim (Bool-cases (is_cycled edges e)) [
    | inl c ↦ rw (c, has-place) (ground (arith, has-names_of edges rest))
    | inr c ↦ rw c (has-names_of edges rest)
  ]

  device_of-device : (d : String) → device_of (device_node_id d) ≡ d
  device_of-device d =
      ap (slice (device_node_id d) (len "device:")) (len-append "device:" d)
      ∙ slice-append_right "device:" d

  same_device :
      (edges : List Edge) (d : String)
      → (has_action edges (device_node_id d) "connected"
          && has_action edges (device_node_id d) "disconnected"
          && d == device_id)
        ≡ (d == device_id
            && (has_action edges (device_node_id device_id) "connected"
                && has_action edges (device_node_id device_id) "disconnected"))
  same_device edges d = elim (Bool-cases (d == device_id)) [
    | inl y ↦ rw (y, eq_of_== d device_id y) (ground arith)
    | inr n ↦ rw n (ground arith)
  ]

  is_cycled-device :
      (edges : List Edge) (e : Edge) (d : String)
      → device_node_id d ≡ e.origin
      → (is_cycled edges e && device_of e.origin == device_id) ≡ (
          e.origin == device_node_id device_id
          && (has_action edges (device_node_id device_id) "connected"
              && has_action edges (device_node_id device_id) "disconnected"))
  is_cycled-device edges e d p =
      rw (← p, starts_with-append "device:" d, device_of-device d, device-eq d)
        (same_device edges d)

  is_cycled-origin :
      (edges : List Edge) (e : Edge)
      → (is_cycled edges e && device_of e.origin == device_id) ≡ (
          e.origin == device_node_id device_id
          && (has_action edges (device_node_id device_id) "connected"
              && has_action edges (device_node_id device_id) "disconnected"))
  is_cycled-origin edges e = elim (Bool-cases (starts_with e.origin "device:")) [
    | inl y ↦ let (d, p) = (starts_with_iff e.origin "device:").0 y in is_cycled-device edges e d p
    | inr n ↦
        let other : (e.origin == device_node_id device_id) ≡ false = ==-false_of_ne _ _ (λ p.
          false≢true (
            sym n
            ∙ ap (λ o. starts_with o "device:") p
            ∙ starts_with-append "device:" device_id)) in
        rw (n, other) refl
  ]

  any-cycled :
      (edges rest : List Edge)
      → any (λ e. is_cycled edges e && device_of e.origin == device_id) rest ≡ (
          any (λ e. e.origin == device_node_id device_id) rest
          && (has_action edges (device_node_id device_id) "connected"
              && has_action edges (device_node_id device_id) "disconnected"))
  any-cycled edges [] = refl
  any-cycled edges (e ∷ rest) = rw (is_cycled-origin edges e, any-cycled edges rest) (ground arith)

  origin_of-action :
      (action : String) (edges : List Edge)
      → has_action edges (device_node_id device_id) action ≡ true
      → any (λ e. e.origin == device_node_id device_id) edges ≡ true
  origin_of-action action [] h = cc
  origin_of-action action (e ∷ edges) h = ground (arith, h, origin_of-action action edges)

  has-cycled :
      (g : Graph)
      → has device_id (cycled g) ≡ (
          has_action g.edges (device_node_id device_id) "connected"
          && has_action g.edges (device_node_id device_id) "disconnected")
  unfolding cycled
  has-cycled g =
      has-names_of g.edges g.edges
      ∙ any-cycled g.edges g.edges
      ∙ ground (arith, origin_of-action "connected" g.edges)

  -- A device is named in the finding exactly if the host's timeline has both a connection and a
  -- disconnection of that device.
  pub cycled-build_attack_graph :
      (hostname : String) (db : Db)
      → let timeline = get_timeline (some hostname) none none 500 db in
        has device_id (cycled (build_attack_graph hostname db)) ≡ (
          any (shows device_id "connected") timeline
          && any (shows device_id "disconnected") timeline)
  unfolding build_attack_graph
  cycled-build_attack_graph hostname db =
      has-cycled _
      ∙ rw
          (
            has_action-add_items "connected" hostname _ (machine_only hostname),
            has_action-add_items "disconnected" hostname _ (machine_only hostname),
          )
          refl
