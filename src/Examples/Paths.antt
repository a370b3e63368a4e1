-- ===== src/Examples/Paths.antt =====
-- A path from a user to an asset at a concrete graph.
use mathlib.Core.Path.{◌≡◌, refl}
use enterprise_data_access_a.Base.{String, true, none, some, List, [], ◌∷◌, ◌≡◌, All}
use enterprise_data_access_a.Base.Fnmatch.{fnmatch}
use enterprise_data_access_a.Base.Json.{py_eq, Fields, end, dict, arr, of_list, str}
use enterprise_data_access_a.Models.{Db, empty_db, AccessNode, AccessEdge}
use enterprise_data_access_a.Graph.{
  texts, insert_sorted, is_traversable, View, AccessPath, resolve_path, resolve_between, search,
  visible, path_of, permits, get_node, usable, out_edges, fresh, unsupported_source, is_unsupported,
  conferred, actions_of, sorted_set, extensions,
}
use enterprise_data_access_a.Graph.Sound.{IsAuthorized, resolve_path-IsAuthorized}
use enterprise_data_access_a.Graph.Confined.{IsConfined, resolve_path-IsConfined}

abbrev pub node : String → String → String → AccessNode
node id kind name = record {
  id = id;
  kind = kind;
  name = name;
  attrs = end;
  tenant_id = none;
  external_id = none;
  source_id = none;
  observed_at = none;
}

abbrev pub edge : String → String → String → String → Fields → AccessEdge
edge id src relation dst attrs = record {
  id = id;
  src_id = src;
  relation = relation;
  dst_id = dst;
  attrs = attrs;
  tenant_id = none;
  source_id = none;
  observed_at = none;
}

abbrev reads : Fields
reads = dict (("actions", arr (of_list (str "ec2:*" ∷ str "approval:open_ticket" ∷ []))) ∷ [])

-- ada is assigned a role whose authority covers the host web-1; so is bob.
abbrev pub graph_db : Db
graph_db = record empty_db {
  nodes =
      node "u" "user" "ada"
      ∷ node "v" "user" "bob"
      ∷ node "r" "role" "reader"
      ∷ node "a" "asset" "web-1"
      ∷ [];
  edges =
      edge "1" "u" "assigned" "r" end
      ∷ edge "2" "v" "assigned" "r" end
      ∷ edge "3" "r" "role_allows" "a" reads
      ∷ [];
}

abbrev pub demo : View
demo = record { demo_enabled = true; max_age = 60; now = 10; tenant = none }

abbrev pub proof : AccessPath
proof =
    path_of graph_db demo
      (edge "1" "u" "assigned" "r" end ∷ edge "3" "r" "role_allows" "a" reads ∷ [])

pub found : resolve_path graph_db demo "ada" "ec2:DescribeInstances" "web-1" ≡ some proof
unfolding resolve_path resolve_between get_node search visible fresh extensions out_edges usable
    is_traversable unsupported_source is_unsupported permits path_of conferred actions_of sorted_set
    insert_sorted texts fnmatch py_eq
found = refl

resolve_path-IsAuthorized_example :
    IsAuthorized graph_db demo "ada" "ec2:DescribeInstances" "web-1" proof
resolve_path-IsAuthorized_example =
    resolve_path-IsAuthorized graph_db demo "ada" "ec2:DescribeInstances" "web-1" proof found

resolve_path-IsConfined_example :
    (trail : List AccessEdge) × (proof ≡ path_of graph_db demo trail)
    × All (IsConfined graph_db demo) trail
resolve_path-IsConfined_example =
    resolve_path-IsConfined graph_db demo "ada" "ec2:DescribeInstances" "web-1" proof found
