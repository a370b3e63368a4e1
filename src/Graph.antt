-- ===== src/Graph.antt =====
-- beta/src/eda/access_graph.py: the search for an authority path from a user to an asset. What the
-- search reads of the settings and the clock stands as arguments, in a `View`.
pub mod Walk
pub mod Sound
pub mod Confined
use Prim.Native.String.{◌++◌ as concat}
use enterprise_data_access_a.Base.{
  ℕ, zero, suc, ◌+◌, ◌-◌, String, Bool, true, false, not, ◌&&◌, ◌||◌, Option, none, some, List, [],
  ◌∷◌, ◌++◌, map, ◌==◌, if◌then◌else◌, is_none, truthy_text, any, all, find, filter, length, leb,
  opt_eq,
}
use enterprise_data_access_a.Base.Json.{
  Value, null, bool, num, str, arr, obj, Items, nil, cons, Fields, end, field, dict, of_list, items,
  lookup, get, get_or, truthy, py_eq,
}
use enterprise_data_access_a.Base.Fnmatch.{fnmatch, codes, lt_codes}
use enterprise_data_access_a.Models.{Db, AccessNode, AccessEdge, RelationshipSource, seconds}

-- `TRAVERSABLE`
abbrev pub traversable : List String
traversable =
    "member_of" ∷ "assigned" ∷ "can_assume" ∷ "role_allows" ∷ "account_contains" ∷ "contains"
    ∷ "grants" ∷ []

unfoldable pub is_traversable : String → Bool
is_traversable relation = any (λ r. r == relation) traversable

-- `settings.demo_enabled`, `settings.source_max_age_seconds`, the clock, and the caller's tenant.
pub record View : Type 0 where
  pub demo_enabled : Bool
  pub max_age : ℕ
  pub now : ℕ
  pub tenant : Option String

pub record AccessPath : Type 0 where
  pub hops : List Value
  pub allowed_actions : List String

unfoldable pub permits : AccessPath → String → Bool
permits path action = any (λ pattern. fnmatch action pattern) path.allowed_actions

unfoldable pub get_node : Db → String → String → Option AccessNode
get_node db kind name = find (λ n. n.kind == kind && n.name == name) db.nodes

-- `add_node` and `add_edge`: the new row and the database behind it.
abbrev pub add_node :
    Db → String → String → String → Fields → Option String → Option String → AccessNode × Db
add_node db id kind name attrs tenant_id external_id =
    let node : AccessNode = record {
      id = id;
      kind = kind;
      name = name;
      attrs = attrs;
      tenant_id = tenant_id;
      external_id = external_id;
      source_id = none;
      observed_at = none;
    } in
    (node, record db { nodes = db.nodes ++ node ∷ [] })

abbrev pub add_edge : Db → String → AccessNode → String → AccessNode → Fields → AccessEdge × Db
add_edge db id src relation dst attrs =
    let edge : AccessEdge = record {
      id = id;
      src_id = src.id;
      relation = relation;
      dst_id = dst.id;
      attrs = attrs;
      tenant_id = none;
      source_id = none;
      observed_at = none;
    } in
    (edge, record db { edges = db.edges ++ edge ∷ [] })

-- The actions that an edge lists. Entries that are no texts confer nothing here; the code would
-- fail on them when it sorts or matches.
unfoldable pub texts : List Value → List String
texts [] = []
texts (str s ∷ vs) = s ∷ texts vs
texts (_ ∷ vs) = texts vs

unfoldable pub actions_of : Fields → List String
unfolding texts
actions_of attrs = elim (get attrs "actions") [ arr xs ↦ texts (items xs) | _ ↦ [] ]

-- `sorted({...})`
unfoldable pub insert_sorted : String → List String → List String
insert_sorted a [] = a ∷ []
insert_sorted a (b ∷ bs) =
    let later = b ∷ insert_sorted a bs in
    if a == b then b ∷ bs else if lt_codes (codes a) (codes b) then a ∷ b ∷ bs else later

unfoldable pub sorted_set : List String → List String
unfolding insert_sorted
sorted_set [] = []
sorted_set (a ∷ as') = insert_sorted a (sorted_set as')

-- `{a for e in trail if e.relation == "role_allows" for a in e.attrs.get("actions", [])}`
unfoldable pub conferred : List AccessEdge → List String
unfolding actions_of
conferred [] = []
conferred (e ∷ es) =
    if e.relation == "role_allows" then actions_of e.attrs ++ conferred es else conferred es

-- Does an edge carry what the search cannot judge?
unfoldable pub is_unsupported : AccessEdge → Bool
is_unsupported e =
    truthy (get e.attrs "conditions")
    || truthy (get e.attrs "unsupported")
    || not (py_eq (get_or e.attrs "effect" (str "allow")) (str "allow"))

abbrev in_tenant : View → AccessNode → Bool
in_tenant view n = is_none view.tenant || (is_none n.tenant_id || opt_eq n.tenant_id view.tenant)

-- `0 <= (now - stamp).total_seconds() <= max_age`, where there is a stamp
abbrev pub is_recent : View → Option ℕ → Bool
is_recent view none = false
is_recent view (some stamp) = leb stamp view.now && leb (view.now - stamp) (seconds view.max_age)

-- `id in {start.id} | {e.dst_id for e in trail}`
abbrev pub on_path : String → String → List AccessEdge → Bool
on_path start id trail = start == id || any (λ e. e.dst_id == id) trail

module _ (db : Db) (view : View) where
  unfoldable pub source_of : String → Option RelationshipSource
  source_of id = find (λ s. s.id == id) db.sources

  -- `fresh`, on the columns that a node and an edge share
  unfoldable pub fresh : Option String → Option String → Option ℕ → Bool
  unfolding source_of
  fresh none tenant_id observed_at = view.demo_enabled
  fresh (some id) tenant_id observed_at = elim (source_of id) [
    | none ↦ false
    | some source ↦
        source.enabled
        && (opt_eq tenant_id (some source.tenant_id)
            && (is_recent view observed_at && is_recent view source.last_sync_at))
  ]

  abbrev pub fresh_node : AccessNode → Bool
  fresh_node n = fresh n.source_id n.tenant_id n.observed_at

  abbrev pub fresh_edge : AccessEdge → Bool
  fresh_edge e = fresh e.source_id e.tenant_id e.observed_at

  -- The nodes that a path may visit.
  unfoldable pub visible : List AccessNode
  visible = filter fresh_node (filter (in_tenant view) db.nodes)

  abbrev pub has_id : String → List AccessNode → Bool
  has_id id ns = any (λ n. n.id == id) ns

  -- The edge's source has asserted something unsupported, somewhere.
  unfoldable pub unsupported_source : AccessEdge → Bool
  unsupported_source e =
      truthy_text e.source_id
      && any (λ f. opt_eq f.source_id e.source_id && is_unsupported f) db.edges

  -- May the search follow this edge?
  unfoldable pub usable : AccessEdge → Bool
  usable e =
      is_traversable e.relation
      && (has_id e.src_id visible
          && (has_id e.dst_id visible
              && (fresh_edge e && (not (unsupported_source e) && not (is_unsupported e)))))

  -- `out_edges.get(id, [])`
  unfoldable pub out_edges : String → List AccessEdge
  out_edges id = filter (λ e. e.src_id == id) (filter usable db.edges)

  pub node_label : String → Value
  node_label id = elim (find (λ n. n.id == id) visible) [
    | none ↦ null
    | some n ↦ str (concat n.kind (concat ":" n.name))
  ]

  -- A hop of the proof.
  pub hop : AccessEdge → Value
  unfolding node_label
  hop e = obj (
      field "src" (node_label e.src_id) (
        field "relation" (str e.relation) (
          field "dst" (node_label e.dst_id)
            (elim (lookup "actions" e.attrs) [ none ↦ end | some as' ↦ field "actions" as' end ]))))

  unfoldable pub path_of : List AccessEdge → AccessPath
  unfolding hop conferred sorted_set
  path_of trail = record { hops = map hop trail; allowed_actions = sorted_set (conferred trail) }

  -- The trails that one more edge makes.
  unfoldable pub extensions : String → String → List AccessEdge → List (String × List AccessEdge)
  extensions start id trail =
      map (λ e. (e.dst_id, trail ++ e ∷ []))
        (filter (λ e. not (on_path start e.dst_id trail)) (out_edges id))

  module _ (start target action : String) where
    -- The loop over the queue; `budget` counts the expansions that are left of 10000.
    unfoldable pub search : ℕ → List (String × List AccessEdge) → Option AccessPath
    search budget [] = none
    search zero (q ∷ qs) = none
    search (suc budget) ((id, trail) ∷ qs) =
        let path = path_of trail in
        let next = search budget qs in
        let deeper = search budget (qs ++ extensions start id trail) in
        if id == target
        then (if permits path action then some path else next)
        else if leb 8 (length trail)
        then next
        else deeper

abbrev pub max_expanded : ℕ
max_expanded = 10000

-- The search between the nodes that were found.
unfoldable pub resolve_between :
    Db → View → String → Option AccessNode → Option AccessNode → Option AccessPath
unfolding search visible
resolve_between db view action (some start) (some target) =
    if has_id db view start.id (visible db view) && has_id db view target.id (visible db view)
    then search db view start.id target.id action max_expanded ((start.id, []) ∷ [])
    else none
resolve_between db view action _ _ = none

unfoldable pub resolve_path : Db → View → String → String → String → Option AccessPath
unfolding resolve_between
resolve_path db view subject action resource =
    resolve_between db view action (get_node db "user" subject) (get_node db "asset" resource)

-- The same search for a capability.
unfoldable pub capability_path : Db → View → String → String → String → Option AccessPath
capability_path = resolve_path
