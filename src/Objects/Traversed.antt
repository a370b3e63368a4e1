-- ===== src/Objects/Traversed.antt =====
-- The traversal of beta/src/eda/objects.py keeps to what may be reached, hop by hop.
use enterprise_data_access_a.Base.{
  raise_if-passed, >>=-eq-ok, ℕ, zero, suc, ◌+◌, String, ◌||◌, Option, none, some, List, [], ◌∷◌,
  ◌++◌, ◌==◌, ◌≡◌, refl, ◌∈◌, inl, inr, any, length, ltb, All, Bool-cases, if-cases, mem-filter,
  eq_iff, arith, ok, value_error, ok-injective,
}
use mathlib.Core.Path.{subst, sym}
use enterprise_data_access_a.Models.{Db, ObjectNode, ObjectEdge, Grant}
use enterprise_data_access_a.Config.{Settings}
use enterprise_data_access_a.Graph.Walk.{All-concat}
use enterprise_data_access_a.Objects.{Found, Expansion, view_edge, set_edge, by_id}
use enterprise_data_access_a.Objects.Traversal.{
  is_shown, join, follow, follow_all, edges_of, expand, expand_all, traverse,
}
use enterprise_data_access_a.Objects.Reach.{
  IsDiscoverable, Reach, along, against, is_shown-IsRelated, IsFound, IsExpansion, set_edge-IsShown,
}

module _ (settings : Settings) (asked_at : String → String → ℕ) (db : Db) (grant : Grant)
    (root : String) where
  abbrev Expanded : ℕ → Expansion → Type 0
  Expanded = IsExpansion settings asked_at db grant root

  abbrev Reached : String → ℕ → Type 0
  Reached = Reach settings asked_at db grant root

  join-IsExpansion :
      (hop : ℕ) (other : ObjectNode) (x x' : Expansion)
      → IsDiscoverable settings asked_at db grant other
      → Reached other.id hop
      → Expanded hop x
      → join settings asked_at db grant hop other x ≡ ok x'
      → Expanded hop x'
  unfolding join
  join-IsExpansion hop other x x' d r i h =
      let nodes' = x.nodes ++ record { node = other; distance = hop } ∷ [] in
      elim (if-cases (any (λ f. f.node.id == other.id) x.nodes) _ _ h) [
        | inl (known, e) ↦ subst (Expanded hop) (ok-injective e) i
        | inr (new, e) ↦ elim (if-cases (ltb 1000 (length nodes')) _ _ e) [
          | inl (many, bad) ↦ absurd (cc)
          | inr (few', e') ↦ subst (Expanded hop) (ok-injective e') (record {
            nodes = All-concat _ x.nodes _ i.nodes (d, r, omega arith);
            frontier = All-concat _ x.frontier _ i.frontier r;
            edges = i.edges;
            few = ground (arith, few');
          })
        ]
      ]

  -- One edge of an object that is one hop nearer.
  follow-IsExpansion :
      (n : ℕ) (id : String) (e : ObjectEdge) (s t : Option ObjectNode) (x x' : Expansion)
      → Reached id n
      → e ∈ edges_of settings asked_at db grant id
      → by_id db e.src_id ≡ s
      → by_id db e.dst_id ≡ t
      → Expanded (suc n) x
      → follow settings asked_at db grant (suc n) id e s t x ≡ ok x'
      → Expanded (suc n) x'
  unfolding follow
  follow-IsExpansion n id e none t x x' r m hs ht i h = subst (Expanded (suc n)) (ok-injective h) i
  follow-IsExpansion n id e (some s) none x x' r m hs ht i h =
      subst (Expanded (suc n)) (ok-injective h) i
  follow-IsExpansion n id e (some s) (some t) x x' r m hs ht i h =
      let shown : Expansion = record x {
        visible_edges = set_edge e.id (view_edge e s t) x.visible_edges;
      } in
      elim (if-cases (is_shown settings asked_at db grant e s t) _ _ h) [
        | inr (hidden, h') ↦ subst (Expanded (suc n)) (ok-injective h') i
        | inl (visible, h') ↦
            let (at, stored) =
              mem-filter (λ f. f.src_id == id || f.dst_id == id) e db.object_edges m in
            let rel = is_shown-IsRelated settings asked_at db grant e s t stored hs ht visible in
            let i' : Expanded (suc n) shown = record {
              nodes = i.nodes;
              frontier = i.frontier;
              edges =
                  set_edge-IsShown settings asked_at db grant root e.id _ x.visible_edges
                    (λ k. (e, s, t, rel, refl)) i.edges;
              few = i.few;
            } in
            elim (Bool-cases (s.id == id)) [
              | inl from ↦
                  join-IsExpansion (suc n) t shown x' rel.target_discoverable
                    (along rel (subst (λ a. Reached a n) (sym ((eq_iff s.id id).0 from)) r)) i'
                    (rw (from) at h')
              | inr to ↦
                  let at_t : t.id ≡ id = ground (
                    arith,
                    eq_iff e.src_id id,
                    eq_iff e.dst_id id,
                    eq_iff s.id id,
                    rel.src,
                    rel.dst,
                    to,
                    at,
                  ) in
                  join-IsExpansion (suc n) s shown x' rel.source_discoverable
                    (against rel (subst (λ a. Reached a n) (sym at_t) r)) i' (rw (to) at h')
            ]
      ]

  follow_all-IsExpansion :
      (n : ℕ) (id : String) (es : List ObjectEdge) (x x' : Expansion)
      → Reached id n
      → ((e : ObjectEdge) → e ∈ es → e ∈ edges_of settings asked_at db grant id)
      → Expanded (suc n) x
      → follow_all settings asked_at db grant (suc n) id es x ≡ ok x'
      → Expanded (suc n) x'
  unfolding follow_all
  follow_all-IsExpansion n id [] x x' r m i h = subst (Expanded (suc n)) (ok-injective h) i
  follow_all-IsExpansion n id (e ∷ es) x x' r m i h =
      let (y, first, rest) =
        >>=-eq-ok (follow settings asked_at db grant (suc n) id e _ _ x)
          (follow_all settings asked_at db grant (suc n) id es) h in
      follow_all-IsExpansion n id es y x' r (λ f k. m f (inr k))
        (follow-IsExpansion n id e _ _ x y r (m e (inl refl)) refl refl i first) rest

  expand-IsExpansion :
      (n : ℕ) (id : String) (x x' : Expansion)
      → Reached id n
      → Expanded (suc n) x
      → expand settings asked_at db grant (suc n) id x ≡ ok x'
      → Expanded (suc n) x'
  unfolding expand
  expand-IsExpansion n id x x' r i h =
      let es = edges_of settings asked_at db grant id in
      let (few, h') =
        raise_if-passed (ltb 1000 (length es)) (value_error "context expansion exceeds limit")
          (λ u. follow_all settings asked_at db grant (suc n) id es x) h in
      follow_all-IsExpansion n id es x x' r (λ e m. m) i h'

  expand_all-IsExpansion :
      (n : ℕ) (ids : List String) (x x' : Expansion)
      → All (λ id. Reached id n) ids
      → Expanded (suc n) x
      → expand_all settings asked_at db grant (suc n) ids x ≡ ok x'
      → Expanded (suc n) x'
  unfolding expand_all
  expand_all-IsExpansion n [] x x' r i h = subst (Expanded (suc n)) (ok-injective h) i
  expand_all-IsExpansion n (id ∷ ids) x x' r i h =
      let (y, first, rest) =
        >>=-eq-ok (expand settings asked_at db grant (suc n) id x)
          (expand_all settings asked_at db grant (suc n) ids) h in
      expand_all-IsExpansion n ids y x' r.1 (expand-IsExpansion n id x y r.0 i first) rest

  weaken-IsFound :
      (n : ℕ) (fs : List Found)
      → All (IsFound settings asked_at db grant root n) fs
      → All (IsFound settings asked_at db grant root (suc n)) fs
  weaken-IsFound n [] all = tt
  weaken-IsFound n (f ∷ fs) ((d, r, near), all) =
      ((d, r, omega (arith, near)), weaken-IsFound n fs all)

  -- Some hops leave what may be reached within as many.
  pub traverse-IsExpansion :
      (left n : ℕ) (x x' : Expansion)
      → Expanded n x
      → traverse settings asked_at db grant left (suc n) x ≡ ok x'
      → Expanded (n + left) x'
  unfolding traverse
  traverse-IsExpansion zero n x x' i h =
      let same : n + 0 ≡ n = omega arith in
      subst (λ k. Expanded k x') (sym same) (subst (Expanded n) (ok-injective h) i)
  traverse-IsExpansion (suc left) n x x' i h =
      let (y, first, rest) =
        >>=-eq-ok
          (expand_all settings asked_at db grant (suc n) x.frontier (record x { frontier = [] }))
          (traverse settings asked_at db grant left (suc (suc n))) h in
      let next : suc n + left ≡ n + suc left = omega arith in
      let j : Expanded (suc n) (record x { frontier = [] }) = record {
        nodes = weaken-IsFound n x.nodes i.nodes;
        frontier = tt;
        edges = i.edges;
        few = i.few;
      } in
      subst (λ k. Expanded k x') next
        (traverse-IsExpansion left (suc n) y x'
          (expand_all-IsExpansion n x.frontier (record x { frontier = [] }) y i.frontier j first)
          rest)
