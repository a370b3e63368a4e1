-- ===== src/Graph/Sound.antt =====
-- Every path that the search returns is a proof of authority.
use enterprise_data_access_a.Base.{
  ℕ, zero, suc, ◌≤◌, String, true, false, not, ◌&&◌, Option, none, some, List, [], ◌∷◌, ◌++◌, map,
  ◌==◌, ◌≡◌, refl, ◌∈◌, inl, inr, length, and_split, leb, arith, eq_iff, All, mem-filter,
  length-append, if-cases,
}
use mathlib.Core.Path.{subst}
use enterprise_data_access_a.Models.{Db, AccessEdge, AccessNode}
use enterprise_data_access_a.Graph.{
  View, AccessPath, permits, usable, out_edges, on_path, extensions, search, path_of, visible,
  has_id, resolve_path, resolve_between, get_node, max_expanded,
}
use enterprise_data_access_a.Graph.Walk.{
  IsWalk, IsSimple, IsWalk-concat, IsSimple-concat, All-concat, All-append,
}

module _ (db : Db) (view : View) (start : String) where
  -- A trail that the search may hold for a node.
  pub record IsTrail (id : String) (trail : List AccessEdge) : Type 0 where
    pub walk : IsWalk start trail id
    pub simple : IsSimple (start ∷ []) trail
    pub usable_edges : All (λ e. usable db view e ≡ true) trail
    pub short : length trail ≤ 8

  extend-IsTrail :
      (id : String) (trail : List AccessEdge) (e : AccessEdge)
      → IsTrail id trail
      → length trail ≤ 7
      → on_path start e.dst_id trail ≡ false
      → usable db view e ≡ true
      → e.src_id ≡ id
      → IsTrail e.dst_id (trail ++ e ∷ [])
  extend-IsTrail id trail e t room fresh live src = record {
    walk = IsWalk-concat start id trail e t.walk src;
    simple = IsSimple-concat (start ∷ []) trail e t.simple (ground arith) (ground arith);
    usable_edges = All-concat _ trail e t.usable_edges live;
    short = omega (arith, length-append trail (e ∷ []));
  }

  abbrev AllTrails : List (String × List AccessEdge) → Type 0
  AllTrails = All (λ q. IsTrail q.0 q.1)

  map-AllTrails :
      (id : String) (trail : List AccessEdge) (es : List AccessEdge)
      → IsTrail id trail
      → length trail ≤ 7
      → ((e : AccessEdge)
          → e ∈ es
          → (on_path start e.dst_id trail ≡ false) × (usable db view e ≡ true) × (e.src_id ≡ id))
      → AllTrails (map (λ e. (e.dst_id, trail ++ e ∷ [])) es)
  map-AllTrails id trail [] t room h = tt
  map-AllTrails id trail (e ∷ es) t room h =
      let (fresh, live, src) = h e (inl refl) in
      (
        extend-IsTrail id trail e t room fresh live src,
        map-AllTrails id trail es t room (λ f m. h f (inr m)),
      )

  extensions-AllTrails :
      (id : String) (trail : List AccessEdge)
      → IsTrail id trail
      → length trail ≤ 7
      → AllTrails (extensions db view start id trail)
  unfolding extensions out_edges
  extensions-AllTrails id trail t room = map-AllTrails id trail _ t room λ e m.
      let (off, out) = mem-filter (λ f. not (on_path start f.dst_id trail)) e _ m in
      let (src, live) = mem-filter (λ f. f.src_id == id) e _ out in
      let (use', _) = mem-filter (usable db view) e db.edges live in
      (ground arith, use', (eq_iff e.src_id id).0 src)

  -- What the search returns is the path of a trail to the target that permits the action.
  pub search_sound :
      (target action : String) (budget : ℕ) (queue : List (String × List AccessEdge))
      (p : AccessPath)
      → AllTrails queue
      → search db view start target action budget queue ≡ some p
      → (trail : List AccessEdge) × IsTrail target trail
        × (p ≡ path_of db view trail)
        × (permits p action ≡ true)
  unfolding search
  search_sound target action budget [] p all h = cc
  search_sound target action zero (q ∷ qs) p all h = cc
  search_sound target action (suc budget) ((id, trail) ∷ qs) p all h =
      elim (if-cases (id == target) _ _ h) [
        | inl (found, h') ↦ elim (if-cases (permits (path_of db view trail) action) _ _ h') [
          | inl (good, e) ↦ (
            trail,
            subst (λ t. IsTrail t trail) ((eq_iff id target).0 found) all.0,
            ground (arith, e),
            ground (arith, e, good),
          )
          | inr (bad, e) ↦ search_sound target action budget qs p all.1 e
        ]
        | inr (other, h') ↦ elim (if-cases (leb 8 (length trail)) _ _ h') [
          | inl (full, e) ↦ search_sound target action budget qs p all.1 e
          | inr (room, e) ↦
              search_sound target action budget (qs ++ extensions db view start id trail) p
                (All-append _ qs _ all.1 (extensions-AllTrails id trail all.0 (ground arith))) e
        ]
      ]

-- What a returned path proves.
pub record IsAuthorized (db : Db) (view : View) (subject action resource : String) (p : AccessPath)
    : Type 0 where
  pub from : AccessNode
  pub is_user : get_node db "user" subject ≡ some from
  pub to : AccessNode
  pub is_asset : get_node db "asset" resource ≡ some to
  pub from_visible : has_id db view from.id (visible db view) ≡ true
  pub to_visible : has_id db view to.id (visible db view) ≡ true
  pub trail : List AccessEdge
  pub proven : IsTrail db view from.id to.id trail
  pub path : p ≡ path_of db view trail
  pub permitted : permits p action ≡ true

resolve_between-IsAuthorized :
    (db : Db) (view : View) (subject action resource : String) (s t : Option AccessNode)
    (p : AccessPath)
    → get_node db "user" subject ≡ s
    → get_node db "asset" resource ≡ t
    → resolve_between db view action s t ≡ some p
    → IsAuthorized db view subject action resource p
unfolding resolve_between
resolve_between-IsAuthorized db view subject action resource none t p es et h = cc
resolve_between-IsAuthorized db view subject action resource (some s) none p es et h = cc
resolve_between-IsAuthorized db view subject action resource (some s) (some t) p es et h =
    elim (if-cases (has_id db view s.id (visible db view) && has_id db view t.id (visible db view))
      _ _ h) [
        | inr (hidden, e) ↦ cc
        | inl (seen, e) ↦
            let (seen_s, seen_t) = and_split _ _ seen in
            let start : IsTrail db view s.id s.id [] = record {
              walk = refl;
              simple = tt;
              usable_edges = tt;
              short = omega arith;
            } in
            let (trail, proven, path, permitted) =
              search_sound db view s.id t.id action max_expanded ((s.id, []) ∷ []) p (start, tt)
                e in
            record {
              from = s;
              is_user = es;
              to = t;
              is_asset = et;
              from_visible = seen_s;
              to_visible = seen_t;
              trail = trail;
              proven = proven;
              path = path;
              permitted = permitted;
            }
      ]

-- If `resolve_path` returns a path for a subject, an action and a resource, then the subject is a
-- user node and the resource an asset node, both visible, and the path is that of a walk between
-- them: it has at most eight edges and no repeated node, every edge is usable, and its actions
-- permit the action.
pub resolve_path-IsAuthorized :
    (db : Db) (view : View) (subject action resource : String) (p : AccessPath)
    → resolve_path db view subject action resource ≡ some p
    → IsAuthorized db view subject action resource p
unfolding resolve_path
resolve_path-IsAuthorized db view subject action resource p h =
    resolve_between-IsAuthorized db view subject action resource _ _ p refl refl h
