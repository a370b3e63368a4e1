-- ===== src/Examples/Contexts.antt =====
-- The context of a host that uses a database with a restricted field.
use mathlib.Core.Path.{◌≡◌, refl}
use enterprise_data_access_a.Base.{sort_by, insert_by, ℕ, String, true, false, some, [], ◌∷◌, ok}
use enterprise_data_access_a.Base.Int.{pos}
use enterprise_data_access_a.Base.Json.{Fields, end, dict, str, obj, arr, of_list, py_eq}
use enterprise_data_access_a.Base.Fnmatch.{fnmatch}
use enterprise_data_access_a.Models.{Db, empty_db, Grant, ObjectNode, ObjectEdge}
use enterprise_data_access_a.Config.{default_settings, demo_enabled}
use enterprise_data_access_a.Graph
use enterprise_data_access_a.Graph.{
  capability_path, resolve_path, resolve_between, get_node, search, visible, fresh, extensions,
  out_edges, usable, is_traversable, unsupported_source, is_unsupported, path_of, conferred,
  actions_of, sorted_set, insert_sorted, texts,
}
use enterprise_data_access_a.Broker.{validate_grant}
use enterprise_data_access_a.Objects.{set_edge, ContextView, available}
use enterprise_data_access_a.Objects.Traversal.{
  scoped_context, context_within, context_of, context_from, permits, is_shown, join, follow,
  follow_all, expand, expand_all, traverse, shown_fields, shown_attrs, view_nodes,
}
use enterprise_data_access_a.Objects.Disclosed.{IsDisclosed, scoped_context-IsDisclosed}
use enterprise_data_access_a.Examples.Paths.{node, edge}

abbrev object : String → String → String → Fields → ObjectNode
object id kind name attrs = record {
  id = id;
  kind = kind;
  name = name;
  attrs = attrs;
  tenant_id = some "local";
}

abbrev host : ObjectNode
host = object "h" "host" "web-1" (dict (("owner", str "ops") ∷ ("token", str "t") ∷ []))

abbrev database : ObjectNode
database = object "d" "database" "orders" end

abbrev uses : ObjectEdge
uses = record { id = "e"; src_id = "h"; relation = "uses"; dst_id = "d"; attrs = end }

-- ada may discover both, read the host, and see that it uses something.
abbrev db : Db
db = record empty_db {
  nodes = node "u" "user" "ada" ∷ node "a" "asset" "web-1" ∷ node "b" "asset" "orders" ∷ [];
  edges =
      edge "1" "u" "role_allows" "a" (
        dict (
          (
            "actions",
            arr (
                of_list
                  (str "context:discover" ∷ str "context:read" ∷ str "context:relation:*" ∷ [])),
          )
          ∷ []))
      ∷ edge "2" "u" "role_allows" "b"
          (dict (("actions", arr (of_list (str "context:discover" ∷ []))) ∷ []))
      ∷ [];
  objects = host ∷ database ∷ [];
  object_edges = uses ∷ [];
}

abbrev grant : Grant
grant = record {
  id = "g";
  subject = "ada";
  scope = record {
    actions = "ec2:DescribeInstances" ∷ [];
    resources = "web-1" ∷ [];
    read_only = true;
  };
  session_tags = end;
  broker_kind = "fixed";
  credential_ref = "vault:1";
  issued_at = 1;
  expires_at = 9;
  revoked = false;
  correlation_id = "c1";
  tenant_id = some "local";
}

abbrev clock : String → String → ℕ
clock id capability = 5

abbrev shown : ContextView
shown = record {
  root = "host:web-1";
  nodes =
      record {
        kind = "host";
        name = "web-1";
        attrs = obj (dict (("owner", str "ops") ∷ ("token", str "REDACTED") ∷ []));
        distance = 0;
      }
      ∷ record { kind = "database"; name = "orders"; attrs = str "REDACTED"; distance = 1 }
      ∷ [];
  edges = record { src = "host:web-1"; relation = "uses"; dst = "database:orders" } ∷ [];
  max_hops = 2;
  read_only = true;
}

disclosed : scoped_context default_settings clock db grant 6 "web-1" (pos 2) ≡ ok (available shown)
unfolding scoped_context context_within context_of context_from permits is_shown join follow
    follow_all expand expand_all traverse shown_fields shown_attrs view_nodes set_edge sort_by
    insert_by validate_grant capability_path resolve_path resolve_between get_node search visible
    fresh extensions out_edges usable is_traversable unsupported_source is_unsupported path_of
    conferred actions_of sorted_set insert_sorted texts fnmatch py_eq demo_enabled Graph.permits
disclosed = refl

scoped_context-IsDisclosed_example :
    IsDisclosed default_settings clock db grant 6 "web-1" (pos 2) shown
scoped_context-IsDisclosed_example =
    scoped_context-IsDisclosed default_settings clock db grant 6 "web-1" (pos 2) shown disclosed
