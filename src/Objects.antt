-- ===== src/Objects.antt =====
-- beta/src/eda/objects.py: the object inventory and the context that a grant's holder is shown.
pub mod Traversal
pub mod Reach
pub mod Traversed
pub mod Attributes
pub mod Shown
pub mod Disclosed
use Prim.Native.String.{◌++◌ as concat}
use enterprise_data_access_a.Base.{
  ℕ, zero, suc, String, Bool, true, false, not, ◌&&◌, ◌||◌, Option, none, some, List, [], ◌∷◌, ◌++◌,
  map, ◌==◌, if◌then◌else◌, is_some, truthy_text, any, elem, find, filter, length, ltb, leb, eqb,
  opt_eq, nonempty, sort_by, Result, ok, err, ◌>>=◌, ◌>>◌, raise_if, value_error, type_error,
  index_error,
}
use enterprise_data_access_a.Base.Int.{ℤ, pos, negsuc}
use enterprise_data_access_a.Base.Json.{
  Value, null, bool, num, str, arr, obj, Items, nil, cons, Fields, end, field, keys, get_or,
}
use enterprise_data_access_a.Base.Fnmatch.{codes, lt_codes}
use enterprise_data_access_a.Models.{Db, ObjectNode, ObjectEdge, Grant}
use enterprise_data_access_a.Config.{Settings, demo_enabled}
use enterprise_data_access_a.Graph.{View, capability_path}
use enterprise_data_access_a.Broker.{validate_grant}

unfoldable pub get_object : Db → String → String → Option ObjectNode
get_object db kind name = find (λ o. o.kind == kind && o.name == name) db.objects

unfoldable pub get_object_by_name : Db → String → Option ObjectNode
get_object_by_name db name = find (λ o. o.name == name) db.objects

-- `db.get(ObjectNode, id)`
abbrev pub by_id : Db → String → Option ObjectNode
by_id db id = find (λ o. o.id == id) db.objects

-- `attrs or {}`
abbrev or_empty : Option Fields → Fields
or_empty none = end
or_empty (some attrs) = attrs

-- `add_object` and `relate`: the new row, under a new identifier, and the database behind it.
pub add_object : Db → String → String → String → Option Fields → Option String → ObjectNode × Db
add_object db id kind name attrs tenant_id =
    let node : ObjectNode = record {
      id = id;
      kind = kind;
      name = name;
      attrs = or_empty attrs;
      tenant_id = tenant_id;
    } in
    (node, record db { objects = db.objects ++ node ∷ [] })

pub relate : Db → String → ObjectNode → String → ObjectNode → Option Fields → ObjectEdge × Db
relate db id src relation dst attrs =
    let edge : ObjectEdge = record {
      id = id;
      src_id = src.id;
      relation = relation;
      dst_id = dst.id;
      attrs = or_empty attrs;
    } in
    (edge, record db { object_edges = db.object_edges ++ edge ∷ [] })

pub record NodeView : Type 0 where
  pub kind : String
  pub name : String
  pub attrs : Value
  pub distance : ℕ

pub record EdgeView : Type 0 where
  pub src : String
  pub relation : String
  pub dst : String

-- What is disclosed; the scope's `disclosure` is a fixed text.
pub record ContextView : Type 0 where
  pub root : String
  pub nodes : List NodeView
  pub edges : List EdgeView
  pub max_hops : ℕ
  pub read_only : Bool

-- `unavailable` is `empty`, with its note.
pub data Context : Type 0 where
  unavailable : String → Context
  available : ContextView → Context

-- An object with its distance from the root: `nodes` and `distance` in one.
pub record Found : Type 0 where
  pub node : ObjectNode
  pub distance : ℕ

-- The variables of the traversal. `visible_edges` keeps its keys, the identifiers of the edges.
pub record Expansion : Type 0 where
  pub nodes : List Found
  pub frontier : List String
  pub visible_edges : List (String × EdgeView)

abbrev pub label : ObjectNode → String
label o = concat o.kind (concat ":" o.name)

abbrev pub view_edge : ObjectEdge → ObjectNode → ObjectNode → EdgeView
view_edge edge source target = record {
  src = label source;
  relation = edge.relation;
  dst = label target;
}

-- `visible_edges[id] = view`
unfoldable pub set_edge : String → EdgeView → List (String × EdgeView) → List (String × EdgeView)
set_edge id view [] = (id, view) ∷ []
set_edge id view ((k, v) ∷ kvs) =
    let rest = set_edge id view kvs in if k == id then (k, view) ∷ kvs else (k, v) ∷ rest

-- `(distance, name)`
abbrev pub closer : Found → Found → Bool
closer a b =
    ltb a.distance b.distance
    || (eqb a.distance b.distance && lt_codes (codes a.node.name) (codes b.node.name))

-- `(src, relation, dst)`
abbrev pub edge_before : EdgeView → EdgeView → Bool
edge_before a b =
    lt_codes (codes a.src) (codes b.src)
    || (a.src == b.src
        && (lt_codes (codes a.relation) (codes b.relation)
            || (a.relation == b.relation && lt_codes (codes a.dst) (codes b.dst))))

abbrev pub secret_fields : List String
secret_fields =
    "password" ∷ "secret" ∷ "secret_value" ∷ "token" ∷ "credentials" ∷ "private_key" ∷ []

-- Can `set(v)` be built?
abbrev pub hashable_items : Items → Bool
hashable_items nil = true
hashable_items (cons (arr _) vs) = false
hashable_items (cons (obj _) vs) = false
hashable_items (cons _ vs) = hashable_items vs

abbrev pub settable : Value → Bool
settable (str s) = true
settable (arr vs) = hashable_items vs
settable (obj fs) = true
settable _ = false

-- Is a text in `set(v)`? A text's elements are its characters, an object's its keys.
abbrev pub item_in : String → Items → Bool
item_in k nil = false
item_in k (cons (str s) vs) = s == k || item_in k vs
item_in k (cons _ vs) = item_in k vs

abbrev pub in_set : String → Value → Bool
in_set k (str s) = elim (codes k) [ c ∷ [] ↦ any (λ d. eqb d c) (codes s) | _ ↦ false ]
in_set k (arr vs) = item_in k vs
in_set k (obj fs) = elem k (keys fs)
in_set k _ = false

abbrev pub restricted_of : ObjectNode → Value
restricted_of o = get_or o.attrs "restricted_fields" (arr nil)

abbrev pub is_restricted : ObjectNode → String → Bool
is_restricted o k = in_set k (restricted_of o) || elem k secret_fields
