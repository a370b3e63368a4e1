-- ===== src/Policy/Lifecycle/Sole.antt =====
-- At most one policy is active, identifiers and versions are unique, and the writes keep this.
use enterprise_data_access_a.Base.{
  ℕ, String, true, false, Option, none, some, List, [], ◌∷◌, ◌++◌, ◌==◌, ◌≡◌, ◌≢◌, refl, sym, find,
  any, ◌∈◌, inl, inr, arith, eq_iff, eq_refl, Bool-cases, Option-cases, find-some, any-append,
}
use enterprise_data_access_a.Models.{PolicyRecord, is_active}
use enterprise_data_access_a.Policy.Lifecycle.{update_policy, retire, activate, retire_previous}

-- At most one record of the table is active.
abbrev pub AtMostOneActive : List PolicyRecord → Type 0
AtMostOneActive [] = Unit
AtMostOneActive (p ∷ ps) = (is_active p ≡ true → any is_active ps ≡ false) × AtMostOneActive ps

-- No two records share an identifier or a version.
abbrev pub AllUnique : List PolicyRecord → Type 0
AllUnique [] = Unit
AllUnique (p ∷ ps) =
    (any (λ q. q.id == p.id) ps ≡ false)
    × (any (λ q. q.version == p.version) ps ≡ false)
    × AllUnique ps

pub record IsConsistent (ps : List PolicyRecord) : Type 0 where
  pub one_active : AtMostOneActive ps
  pub unique : AllUnique ps

no_active_of_find : (ps : List PolicyRecord) → find is_active ps ≡ none → any is_active ps ≡ false
no_active_of_find [] h = refl
no_active_of_find (p ∷ ps) h = ground (arith, no_active_of_find ps)

-- Retiring never makes a record active.
retire-inactive :
    (id : String) (ps : List PolicyRecord)
    → any is_active ps ≡ false
    → any is_active (update_policy id retire ps) ≡ false
unfolding update_policy
retire-inactive id [] h = refl
retire-inactive id (p ∷ ps) h = ground (arith, retire-inactive id ps)

retire_active :
    (ps : List PolicyRecord) (a : PolicyRecord)
    → AtMostOneActive ps
    → find is_active ps ≡ some a
    → any is_active (update_policy a.id retire ps) ≡ false
unfolding update_policy
retire_active [] a u h = cc
retire_active (p ∷ ps) a u h = elim (Bool-cases (is_active p)) [
  | inl on ↦ ground (arith, eq_refl a.id, retire-inactive a.id ps)
  | inr off ↦ ground (arith, retire_active ps a)
]

retire_previous-inactive :
    (ps : List PolicyRecord)
    → AtMostOneActive ps
    → any is_active (retire_previous (find is_active ps) ps) ≡ false
unfolding retire_previous
retire_previous-inactive ps u = elim (Option-cases (find is_active ps)) [
  | inl nobody ↦ rw (nobody, retire_previous) (no_active_of_find ps nobody)
  | inr (a, found) ↦ rw (found, retire_previous) (retire_active ps a u found)
]

-- A write that keeps identifiers and versions keeps them unique.
module _ (f : PolicyRecord → PolicyRecord) (same_id : (p : PolicyRecord) → (f p).id ≡ p.id)
    (same_version : (p : PolicyRecord) → (f p).version ≡ p.version) where
  any_id-update :
      (id i : String) (ps : List PolicyRecord)
      → any (λ q. q.id == i) (update_policy id f ps) ≡ any (λ q. q.id == i) ps
  unfolding update_policy
  any_id-update id i [] = refl
  any_id-update id i (p ∷ ps) = ground (arith, same_id p, any_id-update id i ps)

  any_version-update :
      (id v : String) (ps : List PolicyRecord)
      → any (λ q. q.version == v) (update_policy id f ps) ≡ any (λ q. q.version == v) ps
  unfolding update_policy
  any_version-update id v [] = refl
  any_version-update id v (p ∷ ps) = ground (arith, same_version p, any_version-update id v ps)

  AllUnique-update :
      (id : String) (ps : List PolicyRecord) → AllUnique ps → AllUnique (update_policy id f ps)
  unfolding update_policy
  AllUnique-update id [] u = tt
  AllUnique-update id (p ∷ ps) u = ground (
    arith,
    same_id p,
    same_version p,
    any_id-update id p.id ps,
    any_version-update id p.version ps,
    AllUnique-update id ps u.2,
  )

AllUnique-retire_previous :
    (o : Option PolicyRecord) (ps : List PolicyRecord)
    → AllUnique ps
    → AllUnique (retire_previous o ps)
unfolding retire_previous
AllUnique-retire_previous none ps u = u
AllUnique-retire_previous (some p) ps u = AllUnique-update retire (λ p. refl) (λ p. refl) p.id ps u

update-absent :
    (id : String) (f : PolicyRecord → PolicyRecord) (ps : List PolicyRecord)
    → any (λ q. q.id == id) ps ≡ false
    → update_policy id f ps ≡ ps
unfolding update_policy
update-absent id f [] h = refl
update-absent id f (p ∷ ps) h = ground (arith, update-absent id f ps)

any_id-mem :
    (r : PolicyRecord) (ps : List PolicyRecord) → r ∈ ps → any (λ q. q.id == r.id) ps ≡ true
any_id-mem r [] m = elim m [ ]
any_id-mem r (p ∷ ps) m = ground (arith, eq_refl r.id, any_id-mem r ps)

-- A primary key names one row.
pub mem-id :
    (r a : PolicyRecord) (ps : List PolicyRecord)
    → AllUnique ps
    → r ∈ ps
    → a ∈ ps
    → r.id ≡ a.id
    → r ≡ a
mem-id r a [] u mr ma e = elim mr [ ]
mem-id r a (p ∷ ps) u mr ma e = ground (arith, any_id-mem r ps, any_id-mem a ps, mem-id r a ps u.2)

mem-update :
    (r : PolicyRecord) (id : String) (f : PolicyRecord → PolicyRecord) (ps : List PolicyRecord)
    → r ∈ ps
    → r.id ≢ id
    → r ∈ update_policy id f ps
unfolding update_policy
mem-update r id f [] m ne = m
mem-update r id f (p ∷ ps) m ne = ground (arith, eq_iff p.id id, mem-update r id f ps)

-- An inactive row is still there after the active one is retired.
mem-retire_previous :
    (r : PolicyRecord) (ps : List PolicyRecord)
    → AllUnique ps
    → r ∈ ps
    → is_active r ≡ false
    → r ∈ retire_previous (find is_active ps) ps
unfolding retire_previous
mem-retire_previous r ps u m off = elim (Option-cases (find is_active ps)) [
  | inl nobody ↦ rw (nobody, retire_previous) m
  | inr (a, found) ↦
      rw (found, retire_previous)
        (let (on, ma) = find-some is_active ps a found in
          mem-update r a.id retire ps m (λ e. cc (mem-id r a ps u m ma e, on, off)))
]

module _ (now : ℕ) where
  AtMostOneActive-of_none : (ps : List PolicyRecord) → any is_active ps ≡ false → AtMostOneActive ps
  AtMostOneActive-of_none [] h = tt
  AtMostOneActive-of_none (p ∷ ps) h = ground (arith, AtMostOneActive-of_none ps)

  AtMostOneActive-activate :
      (id : String) (ps : List PolicyRecord)
      → any is_active ps ≡ false
      → AllUnique ps
      → AtMostOneActive (update_policy id (activate now) ps)
  unfolding update_policy
  AtMostOneActive-activate id [] h u = tt
  AtMostOneActive-activate id (p ∷ ps) h u = elim (Bool-cases (p.id == id)) [
    | inl here ↦
        let absent : any (λ q. q.id == id) ps ≡ false = rw (← (eq_iff p.id id).0 here) u.0 in
        ground (arith, update-absent id (activate now) ps absent, AtMostOneActive-of_none ps)
    | inr other ↦ ground (arith, AtMostOneActive-activate id ps)
  ]

  find-activate :
      (r : PolicyRecord) (ps : List PolicyRecord)
      → any is_active ps ≡ false
      → AllUnique ps
      → r ∈ ps
      → find is_active (update_policy r.id (activate now) ps) ≡ some (activate now r)
  unfolding update_policy
  find-activate r [] h u m = elim m [ ]
  find-activate r (p ∷ ps) h u m = elim (Bool-cases (p.id == r.id)) [
    | inl here ↦
        let same : r ≡ p = mem-id r p (p ∷ ps) u m (inl refl) (sym ((eq_iff p.id r.id).0 here)) in
        ground (arith, here, same)
    | inr other ↦ ground (arith, eq_refl r.id, find-activate r ps)
  ]

  -- The writes of an activation keep the table consistent and leave the chosen row the active one.
  pub activation-IsConsistent :
      (r : PolicyRecord) (ps : List PolicyRecord)
      → IsConsistent ps
      → r ∈ ps
      → is_active r ≡ false
      → let ps' = update_policy r.id (activate now) (retire_previous (find is_active ps) ps) in
        IsConsistent ps' × (find is_active ps' ≡ some (activate now r))
  activation-IsConsistent r ps c m off =
      let behind = AllUnique-retire_previous (find is_active ps) ps c.unique in
      let quiet = retire_previous-inactive ps c.one_active in
      (
        record {
          one_active = AtMostOneActive-activate r.id _ quiet behind;
          unique = AllUnique-update (activate now) (λ p. refl) (λ p. refl) r.id _ behind;
        },
        find-activate r _ quiet behind (mem-retire_previous r ps c.unique m off),
      )

AllUnique-concat :
    (ps : List PolicyRecord) (r : PolicyRecord)
    → AllUnique ps
    → any (λ q. q.id == r.id) ps ≡ false
    → any (λ q. q.version == r.version) ps ≡ false
    → AllUnique (ps ++ r ∷ [])
AllUnique-concat [] r u i v = (refl, refl, tt)
AllUnique-concat (p ∷ ps) r u i v = ground (
  arith,
  any-append (λ q. q.id == p.id) ps (r ∷ []),
  any-append (λ q. q.version == p.version) ps (r ∷ []),
  eq_iff p.id r.id,
  eq_iff r.id p.id,
  eq_iff p.version r.version,
  eq_iff r.version p.version,
  AllUnique-concat ps r u.2,
)

AtMostOneActive-concat :
    (ps : List PolicyRecord) (r : PolicyRecord)
    → AtMostOneActive ps
    → (is_active r ≡ true → any is_active ps ≡ false)
    → AtMostOneActive (ps ++ r ∷ [])
AtMostOneActive-concat [] r u h = ((λ e. refl), tt)
AtMostOneActive-concat (p ∷ ps) r u h =
    ground (arith, any-append is_active ps (r ∷ []), AtMostOneActive-concat ps r u.1)

-- A new row whose identifier and version are new, and which is not active beside another.
pub concat-IsConsistent :
    (ps : List PolicyRecord) (r : PolicyRecord)
    → IsConsistent ps
    → any (λ q. q.id == r.id) ps ≡ false
    → any (λ q. q.version == r.version) ps ≡ false
    → (is_active r ≡ true → find is_active ps ≡ none)
    → IsConsistent (ps ++ r ∷ [])
concat-IsConsistent ps r c i v h = record {
  one_active = AtMostOneActive-concat ps r c.one_active (λ e. no_active_of_find ps (h e));
  unique = AllUnique-concat ps r c.unique i v;
}
