-- ===== src/Actions/Runner.antt =====
-- The controlled runner (beta/src/eda/runner.py, beta/src/eda/runner_output.py) behind the process:
-- what it accepts of the process's answer. The process is an argument, which gives the decoded
-- answer or nothing where it timed out, crashed or sent too much; `encode` is `json.dumps`.
use enterprise_data_access_a.Base.{
  ℕ, String, Bool, true, false, not, ◌&&◌, ◌||◌, Option, none, some, List, [], ◌∷◌, ◌≡◌, refl,
  ok-injective, ◌≤◌, ◌∈◌, mem_of_elem, le→leb, if◌then◌else◌, length, leb, ltb, eqb, any, elem,
  Result, ok, err, action_error, ◌>>=◌, ◌>>◌, raise_if, >>=-eq-ok, raise_if-passed, arith, inl, inr,
  ◌⊎◌,
}
use mathlib.Core.Path.{subst}
use enterprise_data_access_a.Base.Json.{
  Value, str, obj, Fields, end, field, dict, get, at_key, truthy, keys,
}
use enterprise_data_access_a.Base.Fnmatch.{codes}
use enterprise_data_access_a.Actions.{Outcome, only_keys}

is_prefix : List ℕ → List ℕ → Bool
is_prefix [] ys = true
is_prefix (x ∷ xs) [] = false
is_prefix (x ∷ xs) (y ∷ ys) = eqb x y && is_prefix xs ys

-- `s in t`
occurs_in : List ℕ → List ℕ → Bool
unfolding is_prefix
occurs_in xs [] = is_prefix xs []
occurs_in xs (y ∷ ys) = is_prefix xs (y ∷ ys) || occurs_in xs ys

unfoldable pub occurs : String → String → Bool
unfolding occurs_in
occurs s t = occurs_in (codes s) (codes t)

-- The credential under a key is a text of four characters or more that the payload contains.
unfoldable pub leaks : String → Fields → String → Bool
unfolding occurs
leaks payload credentials key = elim (get credentials key) [
  | str s ↦ leb 4 (length (codes s)) && occurs s payload
  | _ ↦ false
]

abbrev pub secret_keys : List String
secret_keys = "AccessKeyId" ∷ "SecretAccessKey" ∷ "SessionToken" ∷ []

abbrev pub fields_of : Value → Fields
fields_of (obj fs) = fs
fields_of _ = end

abbrev pub payload_of : Outcome → Value
payload_of out = obj (dict (("outputs", obj out.outputs) ∷ ("api_calls", out.api_calls) ∷ []))

-- The keys that are kept are allowed.
pub keys-only_keys :
    (allowed : List String) (fs : Fields) (k : String)
    → k ∈ keys (only_keys allowed fs)
    → k ∈ allowed
unfolding only_keys
keys-only_keys allowed end k m = elim m [ ]
keys-only_keys allowed (field j v fs) k m =
    elim (key-kept (elem j allowed) j k v (only_keys allowed fs) m) [
      | inl (is_in, e) ↦ subst (λ x. x ∈ allowed) e (mem_of_elem j allowed is_in)
      | inr later ↦ keys-only_keys allowed fs k later
    ]
  where
    key-kept :
        (b : Bool) (j k : String) (v : Value) (rest : Fields)
        → k ∈ keys (if b then field j v rest else rest)
        → ((b ≡ true) × (j ≡ k)) ⊎ (k ∈ keys rest)
    key-kept true j k v rest m = elim m [ inl e ↦ inl (refl, cc e) | inr later ↦ inr later ]
    key-kept false j k v rest m = inr m

any-none :
    {A : Type 0} (p : A → Bool) (xs : List A) (a : A) → any p xs ≡ false → a ∈ xs → p a ≡ false
any-none p [] a h m = elim m [ ]
any-none p (x ∷ xs) a h m = ground (arith, h, any-none p xs a)

-- What is left of an answer: the declared outputs.
abbrev pub declared : List String → Value → Value → Outcome
declared allowed outputs api_calls = record {
  outputs = only_keys allowed (fields_of outputs);
  api_calls = api_calls;
}

module _ (encode : Value → String) (byte_size : String → ℕ) where
  -- `reject_credentials`
  unfoldable pub reject_credentials : Value → Fields → Result (Unit {0})
  reject_credentials payload credentials =
      raise_if (any (leaks (encode payload) credentials) secret_keys)
        (action_error "controlled runner: credential material in runner response")

  abbrev pub answered : Option Fields → Result Fields
  answered none = err (action_error "controlled runner: ")
  answered (some fs) = ok fs

  -- `run_controlled` behind the process, up to the exception's class: `execute` turns a
  -- `RunnerError` into an `ActionError`.
  unfoldable pub run_controlled : ℕ → List String → Fields → Option Fields → Result Outcome
  unfolding reject_credentials
  run_controlled limit allowed credentials answer = do
    result ← answered answer
    raise_if (not (truthy (get result "ok"))) (action_error "controlled runner: ")
    raise_if (ltb limit (byte_size (encode (obj result))))
        (action_error "controlled runner: runner output exceeds ")
    outputs ← at_key (obj result) "outputs"
    api_calls ← at_key (obj result) "api_calls"
    reject_credentials (payload_of (declared allowed outputs api_calls)) credentials
    ok (declared allowed outputs api_calls)

  -- What `run_controlled` lets through.
  pub record IsClean (allowed : List String) (credentials : Fields) (out : Outcome) : Type 0 where
    pub only_declared : (k : String) → k ∈ keys out.outputs → k ∈ allowed
    pub no_secret :
        (key s : String)
        → key ∈ secret_keys
        → get credentials key ≡ str s
        → 4 ≤ length (codes s)
        → occurs s (encode (payload_of out)) ≡ false

  no_secret-leaks :
      (payload : String) (credentials : Fields) (key s : String)
      → leaks payload credentials key ≡ false
      → get credentials key ≡ str s
      → 4 ≤ length (codes s)
      → occurs s payload ≡ false
  unfolding leaks
  no_secret-leaks payload credentials key s quiet at long =
      ground (arith, quiet, at, le→leb 4 (length (codes s)) long)

  -- If the runner returns a result, all its outputs are declared ones, and the text of the outputs
  -- and calls contains none of the three credentials that is four characters or longer.
  pub run_controlled-IsClean :
      (limit : ℕ) (allowed : List String) (credentials : Fields) (answer : Option Fields)
      (out : Outcome)
      → run_controlled limit allowed credentials answer ≡ ok out
      → IsClean allowed credentials out
  unfolding run_controlled
  run_controlled-IsClean limit allowed credentials answer out h =
      let result = >>=-eq-ok (answered answer) _ h in
      let is_true =
        raise_if-passed (not (truthy (get result.0 "ok"))) (action_error "controlled runner: ") _
          result.2 in
      let small =
        raise_if-passed (ltb limit (byte_size (encode (obj result.0))))
          (action_error "controlled runner: runner output exceeds ") _ is_true.1 in
      let outputs = >>=-eq-ok (at_key (obj result.0) "outputs") _ small.1 in
      let calls = >>=-eq-ok (at_key (obj result.0) "api_calls") _ outputs.2 in
      let quiet =
        raise_if-passed _ (action_error "controlled runner: credential material in runner response")
          _ calls.2 in
      subst (IsClean allowed credentials) (ok-injective quiet.1) (record {
        only_declared = keys-only_keys allowed (fields_of outputs.0);
        no_secret = λ key s m at long.
            no_secret-leaks (encode (payload_of (declared allowed outputs.0 calls.0))) credentials
              key s
              (any-none
                (leaks (encode (payload_of (declared allowed outputs.0 calls.0))) credentials)
                secret_keys key quiet.0 m)
              at long;
      })
