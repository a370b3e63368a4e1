-- ===== src/Actions/Native.antt =====
-- beta/src/eda/native_actions.py: the native read. The EC2 client is an argument; what it returns
-- is JSON, whose lists the code reads as lists and whose other values as objects.
use enterprise_data_access_a.Base.{
  ℕ, String, Bool, false, not, ◌&&◌, ◌||◌, List, [], ◌∷◌, ◌++◌, leb, eqb, all, filter, map, length,
  ◌≡◌, ◌∈◌, inl, inr, sym, ok-injective, raise_if-passed, Result, ok, err, action_error, ◌>>◌,
  raise_if,
}
use mathlib.Core.Path.{subst}
use enterprise_data_access_a.Base.Json.{
  keys, Value, str, arr, obj, Fields, dict, of_list, items, get, py_eq,
}
use enterprise_data_access_a.Base.Fnmatch.{codes}
use enterprise_data_access_a.Graph.{sorted_set, texts}
use enterprise_data_access_a.Actions.{Outcome, inspect_instance}
use enterprise_data_access_a.Actions.Runner.{fields_of}

abbrev is_hex : ℕ → Bool
is_hex c = (leb b'0' c && leb c b'9') || (leb b'a' c && leb c b'f')

-- `re.fullmatch(r"i-[0-9a-f]{8,17}", s)`
abbrev pub is_instance_id : List ℕ → Bool
is_instance_id (i ∷ d ∷ digits) =
    eqb i b'i'
    && (eqb d b'-' && (leb 8 (length digits) && (leb (length digits) 17 && all is_hex digits)))
is_instance_id _ = false

pub record Client : Type 0 where
  pub describe_instances : List String → Fields
  pub describe_security_groups : List String → Fields

abbrev list_at : Fields → String → List Value
list_at fs k = elim (get fs k) [ arr xs ↦ items xs | _ ↦ [] ]

pub concat_map : (Value → List Value) → List Value → List Value
concat_map f [] = []
concat_map f (v ∷ vs) = f v ++ concat_map f vs

-- The instances of all reservations that carry the identifier.
pub found_instances : String → Fields → List Value
unfolding concat_map
found_instances id response =
    filter (λ i. py_eq (get (fields_of i) "InstanceId") (str id))
      (concat_map (λ r. list_at (fields_of r) "Instances") (list_at response "Reservations"))

abbrev pub group_ids : Fields → List String
group_ids instance' =
    sorted_set (texts (map (λ g. get (fields_of g) "GroupId") (list_at instance' "SecurityGroups")))

abbrev request_id : Fields → Value
request_id response = get (fields_of (get response "ResponseMetadata")) "RequestId"

abbrev native_call : String → Fields → Value
native_call name response =
    obj (
      dict (("service", str "ec2") ∷ ("call", str name) ∷ ("request_id", request_id response) ∷ []))

abbrev calls_of : Client → Fields → List String → List Value
calls_of client response [] = native_call "DescribeInstances" response ∷ []
calls_of client response (g ∷ gs) =
    native_call "DescribeInstances" response
    ∷ native_call "DescribeSecurityGroups" (client.describe_security_groups (g ∷ gs))
    ∷ []

abbrev instance_outcome : Client → String → Fields → Fields → Outcome
instance_outcome client id response instance' = record {
  outputs = dict (
      ("instance", str id)
      ∷ ("state", get (fields_of (get instance' "State")) "Name")
      ∷ ("security_groups", arr (of_list (map str (group_ids instance'))))
      ∷ ("mode", str "read_only_inspection")
      ∷ []);
  api_calls = arr (of_list (calls_of client response (group_ids instance')));
}

abbrev pub only_one : Client → String → Fields → List Value → Result Outcome
only_one client id response (i ∷ []) = ok (instance_outcome client id response (fields_of i))
only_one client id response _ = err (action_error "requested instance unavailable or ambiguous")

-- `inspect_instance`
pub inspect_native : Client → String → Result Outcome
unfolding found_instances
inspect_native client id = do
  raise_if (not (is_instance_id (codes id))) (action_error "invalid native EC2 instance identifier")
  let response = client.describe_instances (id ∷ [])
  only_one client id response (found_instances id response)

only_one-keys :
    (client : Client) (id : String) (response : Fields) (found : List Value) (out : Outcome)
    (k : String)
    → only_one client id response found ≡ ok out
    → k ∈ keys out.outputs
    → k ∈ inspect_instance.allowed_outputs
only_one-keys client id response [] out k h m = cc
only_one-keys client id response (i ∷ []) out k h m =
    outcome-keys k (subst (λ o. k ∈ keys o.outputs) (sym (ok-injective h)) m)
  where
    outcome-keys :
        (k : String)
        → k ∈ "instance" ∷ "state" ∷ "security_groups" ∷ "mode" ∷ []
        → k ∈ inspect_instance.allowed_outputs
    outcome-keys k (inl e) = inl e
    outcome-keys k (inr (inl e)) = inr (inl e)
    outcome-keys k (inr (inr (inl e))) = inr (inr (inl e))
    outcome-keys k (inr (inr (inr (inl e)))) = inr (inr (inr (inr (inl e))))
    outcome-keys k (inr (inr (inr (inr none')))) = elim none' [ ]
only_one-keys client id response (i ∷ j ∷ found) out k h m = cc

-- What a native inspection returns is declared.
pub inspect_native-keys :
    (client : Client) (id : String) (out : Outcome) (k : String)
    → inspect_native client id ≡ ok out
    → k ∈ keys out.outputs
    → k ∈ inspect_instance.allowed_outputs
unfolding inspect_native
inspect_native-keys client id out k h m =
    let named =
      raise_if-passed (not (is_instance_id (codes id)))
        (action_error "invalid native EC2 instance identifier") _ h in
    only_one-keys client id (client.describe_instances (id ∷ []))
      (found_instances id (client.describe_instances (id ∷ []))) out k named.1 m
