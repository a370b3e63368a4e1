-- ===== src/Approvals/Spent.antt =====
-- An approval is spent at most once, in whatever order requests, decisions and spending come
-- (beta/src/eda/gateway.py). A run lists the identifiers of the approvals that were spent.
use enterprise_data_access_a.Base.{
  ℕ, String, Bool, true, false, ◌&&◌, none, some, List, [], ◌∷◌, ◌++◌, ◌==◌, ◌≡◌, refl, ◌∈◌, inl,
  inr, arith, eq_iff, eq_refl, any, any-append, if◌then◌else◌, Bool-cases, Empty,
}
use mathlib.Core.Path.{subst, sym, ◌∙◌}
use enterprise_data_access_a.Models.{
  Approval, ApprovalStatus, pending, consumed, is_pending, is_approved, AccessNode,
}
use enterprise_data_access_a.Graph.{AccessPath}
use enterprise_data_access_a.Approvals.{update_approval, get_approval, decided, consume}

-- A table that requests, decisions and spending have made of the empty one, and what was spent.
pub data Run : List Approval → List String → Type 0 where
  start : Run [] []
  requested :
      {as' : List Approval} {spent : List String} (a : Approval)
      → Run as' spent
      → get_approval a.id as' ≡ none
      → a.status ≡ pending
      → Run (as' ++ a ∷ []) spent
  decided_on :
      {as' : List Approval} {spent : List String} (id : String) (a : Approval) (approve : Bool)
      (approver : AccessNode) (path : AccessPath) (now : ℕ)
      → Run as' spent
      → get_approval id as' ≡ some a
      → is_pending a.status ≡ true
      → Run (update_approval id (decided approve approver path now) as') spent
  spent_on :
      {as' : List Approval} {spent : List String} (id : String) (now : ℕ)
      → Run as' spent
      → (consume id now as').0 ≡ 1
      → Run (consume id now as').1 (id ∷ spent)

abbrev is_open : ApprovalStatus → Bool
is_open consumed = false
is_open _ = true

-- A row of the identifier that is not spent, and a row of the identifier.
abbrev has_open : String → List Approval → Bool
has_open id as' = any (λ a. a.id == id && is_open a.status) as'

abbrev has_row : String → List Approval → Bool
has_row id as' = any (λ a. a.id == id) as'

abbrev AllUnique : List Approval → Type 0
AllUnique [] = Unit
AllUnique (a ∷ as') = (has_row a.id as' ≡ false) × AllUnique as'

-- No text is listed twice.
abbrev pub NoRepeat : List String → Type 0
NoRepeat [] = Unit
NoRepeat (x ∷ xs) = (x ∈ xs → Empty {0}) × NoRepeat xs

open_of_approved : (s : ApprovalStatus) → is_approved s ≡ true → is_open s ≡ true
open_of_approved s h = ground arith

has_row-none :
    (id : String) (as' : List Approval) → get_approval id as' ≡ none → has_row id as' ≡ false
has_row-none id [] h = refl
has_row-none id (a ∷ as') h = ground (arith, has_row-none id as')

has_open-found :
    (id : String) (as' : List Approval) (a : Approval)
    → get_approval id as' ≡ some a
    → is_pending a.status ≡ true
    → has_open id as' ≡ true
has_open-found id [] a h p = cc
has_open-found id (b ∷ as') a h p = ground (arith, has_open-found id as' a)

has_open-no_row :
    (id : String) (as' : List Approval) → has_row id as' ≡ false → has_open id as' ≡ false
has_open-no_row id [] h = refl
has_open-no_row id (a ∷ as') h = ground (arith, has_open-no_row id as')

-- Spending: what it leaves of rows and of open rows.
has_row-consume :
    (j id : String) (now : ℕ) (as' : List Approval)
    → has_row j (consume id now as').1 ≡ has_row j as'
unfolding consume
has_row-consume j id now [] = refl
has_row-consume j id now (a ∷ as') = ground (arith, has_row-consume j id now as')

consume-no_open :
    (id : String) (now : ℕ) (as' : List Approval)
    → has_open id as' ≡ false
    → (consume id now as').0 ≡ 0
unfolding consume
consume-no_open id now [] h = refl
consume-no_open id now (a ∷ as') h =
    ground (arith, consume-no_open id now as', open_of_approved a.status)

has_open-consume_closed :
    (j id : String) (now : ℕ) (as' : List Approval)
    → has_open j as' ≡ false
    → has_open j (consume id now as').1 ≡ false
unfolding consume
has_open-consume_closed j id now [] h = refl
has_open-consume_closed j id now (a ∷ as') h = ground (arith, has_open-consume_closed j id now as')

has_open-consume_one :
    (id : String) (now : ℕ) (as' : List Approval)
    → AllUnique as'
    → (consume id now as').0 ≡ 1
    → has_open id (consume id now as').1 ≡ false
unfolding consume
has_open-consume_one id now [] u h = refl
has_open-consume_one id now (a ∷ as') u h = elim (Bool-cases (a.id == id)) [
  | inl same ↦
      let nothing = has_open-no_row id as' (ground (arith, u.0, eq_iff a.id id, same)) in
      let rest = has_open-consume_closed id id now as' nothing in
      let zero_rest = consume-no_open id now as' nothing in ground (arith, same, rest, zero_rest, h)
  | inr other ↦ ground (arith, other, h, has_open-consume_one id now as' u.1)
]

has_row-consume_one :
    (id : String) (now : ℕ) (as' : List Approval)
    → (consume id now as').0 ≡ 1
    → has_row id as' ≡ true
unfolding consume
has_row-consume_one id now [] h = ground (arith, h)
has_row-consume_one id now (a ∷ as') h = ground (arith, h, has_row-consume_one id now as')

-- The head of a table is replaced by a row of the same identifier, or stays.
AllUnique-head :
    (test : Bool) (a b : Approval) (n m : ℕ) (as' : List Approval)
    → b.id ≡ a.id
    → has_row a.id as' ≡ false
    → AllUnique as'
    → AllUnique (if◌then◌else◌ {A = ℕ × List Approval} test (n, b ∷ as') (m, a ∷ as')).1
AllUnique-head true a b n m as' same h u = (rw same h, u)
AllUnique-head false a b n m as' same h u = (h, u)

AllUnique-consume :
    (id : String) (now : ℕ) (as' : List Approval) → AllUnique as' → AllUnique (consume id now as').1
unfolding consume
AllUnique-consume id now [] u = tt
AllUnique-consume id now (a ∷ as') u =
    AllUnique-head _ a _ _ _ (consume id now as').1 refl (has_row-consume a.id id now as' ∙ u.0)
      (AllUnique-consume id now as' u.1)

-- A decision: the same.
module _ (f : Approval → Approval) (keeps : (a : Approval) → (f a).id ≡ a.id) where
  has_row-update :
      (j id : String) (as' : List Approval) → has_row j (update_approval id f as') ≡ has_row j as'
  unfolding update_approval
  has_row-update j id [] = refl
  has_row-update j id (a ∷ as') = ground (arith, keeps a, has_row-update j id as')

  has_open-update :
      (j id : String) (as' : List Approval)
      → (id == j) ≡ false
      → has_open j (update_approval id f as') ≡ has_open j as'
  unfolding update_approval
  has_open-update j id [] h = refl
  has_open-update j id (a ∷ as') h = ground (
    arith,
    keeps a,
    eq_iff a.id id,
    eq_iff a.id j,
    eq_iff id j,
    eq_refl j,
    has_open-update j id as' h,
  )

  AllUnique-kept :
      (test : Bool) (a : Approval) (as' : List Approval)
      → has_row a.id as' ≡ false
      → AllUnique as'
      → AllUnique (if test then f a ∷ as' else a ∷ as')
  AllUnique-kept true a as' h u = (rw (keeps a) h, u)
  AllUnique-kept false a as' h u = (h, u)

  AllUnique-update :
      (id : String) (as' : List Approval) → AllUnique as' → AllUnique (update_approval id f as')
  unfolding update_approval
  AllUnique-update id [] u = tt
  AllUnique-update id (a ∷ as') u =
      AllUnique-kept (a.id == id) a (update_approval id f as') (has_row-update a.id id as' ∙ u.0)
        (AllUnique-update id as' u.1)

AllUnique-append :
    (a : Approval) (as' : List Approval)
    → has_row a.id as' ≡ false
    → AllUnique as'
    → AllUnique (as' ++ a ∷ [])
AllUnique-append a [] h u = (refl, tt)
AllUnique-append a (b ∷ as') h u = (
  any-append (λ c. c.id == b.id) as' (a ∷ [])
      ∙ ground (arith, u.0, h, eq_iff a.id b.id, eq_iff b.id a.id, eq_refl a.id),
  AllUnique-append a as' (ground (arith, h)) u.1,
)

-- What holds of a run: identifiers are unique, and what was spent has a row and is closed.
record IsSettled (as' : List Approval) (spent : List String) : Type 0 where
  unique : AllUnique as'
  closed : (id : String) → id ∈ spent → (has_row id as' ≡ true) × (has_open id as' ≡ false)
  once : NoRepeat spent

requested-IsSettled :
    (a : Approval) (as' : List Approval) (spent : List String)
    → get_approval a.id as' ≡ none
    → IsSettled as' spent
    → IsSettled (as' ++ a ∷ []) spent
requested-IsSettled a as' spent fresh s = record {
  unique = AllUnique-append a as' (has_row-none a.id as' fresh) s.unique;
  closed = λ id m.
      let (row, shut) = s.closed id m in
      let new = has_row-none a.id as' fresh in
      (
        any-append (λ c. c.id == id) as' (a ∷ []) ∙ ground (arith, row),
        any-append (λ c. c.id == id && is_open c.status) as' (a ∷ [])
            ∙ ground (arith, shut, row, new, eq_iff a.id id),
      );
  once = s.once;
}

decided_on-IsSettled :
    (f : Approval → Approval) (keeps : (a : Approval) → (f a).id ≡ a.id) (id : String)
    (a : Approval) (as' : List Approval) (spent : List String)
    → get_approval id as' ≡ some a
    → is_pending a.status ≡ true
    → IsSettled as' spent
    → IsSettled (update_approval id f as') spent
decided_on-IsSettled f keeps id a as' spent found p s = record {
  unique = AllUnique-update f keeps id as' s.unique;
  closed = λ j m.
      let (row, shut) = s.closed j m in
      let open' = has_open-found id as' a found p in
      let apart : (id == j) ≡ false = ground (arith, shut, open', eq_iff id j) in
      (has_row-update f keeps j id as' ∙ row, has_open-update f keeps j id as' apart ∙ shut);
  once = s.once;
}

spent_on-IsSettled :
    (id : String) (now : ℕ) (as' : List Approval) (spent : List String)
    → (consume id now as').0 ≡ 1
    → IsSettled as' spent
    → IsSettled (consume id now as').1 (id ∷ spent)
spent_on-IsSettled id now as' spent one s = record {
  unique = AllUnique-consume id now as' s.unique;
  closed = λ j m. elim m [
    | inl same ↦
        subst
          (λ k.
            (has_row k (consume id now as').1 ≡ true) × (has_open k (consume id now as').1 ≡ false))
          (sym same)
          (
            has_row-consume id id now as' ∙ has_row-consume_one id now as' one,
            has_open-consume_one id now as' s.unique one,
          )
    | inr before ↦
        let (row, shut) = s.closed j before in
        (has_row-consume j id now as' ∙ row, has_open-consume_closed j id now as' shut)
  ];
  once = (
    λ m. let zero' = consume-no_open id now as' (s.closed id m).1 in ground (arith, one, zero'),
    s.once,
  );
}

Run-IsSettled : (as' : List Approval) (spent : List String) → Run as' spent → IsSettled as' spent
Run-IsSettled as' spent start = record { unique = tt; closed = λ id m. elim m [ ]; once = tt }
Run-IsSettled as' spent (requested {as' = before} a r fresh p) =
    requested-IsSettled a before spent fresh (Run-IsSettled before spent r)
Run-IsSettled as' spent (decided_on {as' = before} id a approve approver path now r found p) =
    decided_on-IsSettled (decided approve approver path now) (λ b. refl) id a before spent found p
      (Run-IsSettled before spent r)
Run-IsSettled as' spent (spent_on {as' = before} {spent = earlier} id now r one) =
    spent_on-IsSettled id now before earlier one (Run-IsSettled before earlier r)

-- In every run of requests with new identifiers, decisions of pending approvals and updates that
-- report one spent row, no approval is spent twice.
pub Run-NoRepeat : (as' : List Approval) (spent : List String) → Run as' spent → NoRepeat spent
Run-NoRepeat as' spent r = (Run-IsSettled as' spent r).once
