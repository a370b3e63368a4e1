-- ===== src/Ingestion/Steps.antt =====
-- Every step of a batch (beta/src/eda/ingestion.py) keeps to the rows of its source.
use mathlib.Core.Path.{◌≡◌, refl, sym, ◌∙◌, subst}
use enterprise_data_access_a.Base.{
  ingest_error, ℕ, ◌+◌, String, Bool, true, false, not, Option, none, some, List, [], ◌∷◌, ◌++◌,
  ◌==◌, find, update_first, ok, arith, All, opt_eq_refl, eq_iff, eq_refl, filter-add,
  filter-update_first, All-append, All-update_found, find-some, Bool-cases, Option-cases, inl, inr,
}
use enterprise_data_access_a.Models.{Db, AccessNode, AccessEdge, RelationshipSource}
use enterprise_data_access_a.Effects.{modify, fail_if, continue, continue-rel, continue-ok, ◌>>◌}
use enterprise_data_access_a.Graph.{is_traversable}
use enterprise_data_access_a.Ingestion.{
  Env, Relationship, EntityRef, Tally, touch, new_node, new_edge, same_edge, refresh_edge,
  get_node_row, has_external, cached, locate, locate_in, claim, upsert_node, put_edge,
  apply_relationship, apply_batch, add_node_row,
}
use enterprise_data_access_a.Ingestion.Separate.{
  own_node, own_edge, owned, NodeInPlace, EdgeInPlace, IsSeparate, IsSeparate-refl,
  IsSeparate-trans, find-append, edges_stay, both_true, IsValid, IsSound,
}

true-ne-false : true ≡ false → ⊥
true-ne-false h = cc

module _ (source : RelationshipSource) where
  module _ (env : Env) (at : ℕ) where
    add-IsSeparate :
        (ref : EntityRef) (id : String) (db : Db)
        → IsValid source ref
        → IsSeparate source db (add_node_row (new_node source at ref id) db)
    add-IsSeparate ref id db v =
        let n = new_node source at ref id in
        let kept = λ (id' : String). find-append source id' db.nodes (n ∷ []) in
        record {
          foreign_nodes =
              filter-add (λ n. not (own_node source n)) db.nodes n (rw (eq_refl source.id) refl);
          owned_kept = kept;
          foreign_edges = λ keep h k. refl;
          stays = λ c. record {
            nodes_in_place =
                All-append _ db.nodes (n ∷ []) c.nodes_in_place
                  (λ own. record { tenant = refl; kind = v.kind; namespace = v.namespace }, tt);
            edges_in_place =
                edges_stay source db.nodes (db.nodes ++ n ∷ []) db.edges kept c.edges_in_place;
          };
        }

    locate_in-IsSeparate :
        (ref : EntityRef) (c : Option String) (row : Option AccessNode) (t : Tally) (db : Db)
        → IsValid source ref
        → IsSeparate source db (locate_in env source at ref c row t db).1
    unfolding locate_in
    locate_in-IsSeparate ref (some id) row t db v = IsSeparate-refl source db
    locate_in-IsSeparate ref none (some n) t db v = IsSeparate-refl source db
    locate_in-IsSeparate ref none none t db v =
        add-IsSeparate ref (env.new_id (t.nodes_created + t.edges_created)) db v

    owned-touch :
        (id id' : String) (ns : List AccessNode)
        → owned source ns id' ≡ true
        → owned source (update_first (λ n. n.id == id) (touch env source at) ns) id' ≡ true
    unfolding update_first
    owned-touch id id' [] h = cc
    owned-touch id id' (n ∷ ns) h = ground (arith, owned-touch id id' ns, eq_refl source.id)

    touch-IsSeparate :
        (id : String) (n : AccessNode) (db : Db)
        → get_node_row id db.nodes ≡ some n
        → own_node source n ≡ true
        → IsSeparate source db
            (record db { nodes = update_first (λ n. n.id == id) (touch env source at) db.nodes })
    touch-IsSeparate id n db found own =
        let ns = update_first (λ n. n.id == id) (touch env source at) db.nodes in
        let kept = λ (id' : String). owned-touch id id' db.nodes in
        record {
          foreign_nodes =
              filter-update_first (λ n. not (own_node source n)) (λ n. n.id == id)
                (touch env source at) db.nodes n found (rw own refl) (rw (eq_refl source.id) refl);
          owned_kept = kept;
          foreign_edges = λ keep h k. refl;
          stays = λ c. record {
            nodes_in_place =
                All-update_found (λ m. own_node source m ≡ true → NodeInPlace source m)
                  (λ n. n.id == id) (touch env source at) db.nodes n found
                  (λ old now.
                    let p = old own in
                    record { tenant = p.tenant; kind = p.kind; namespace = p.namespace })
                  c.nodes_in_place;
            edges_in_place = edges_stay source db.nodes ns db.edges kept c.edges_in_place;
          };
        }

    claimed :
        (id : String) (db : Db) (own same : Bool)
        → (own ≡ true
            → IsSeparate source db (record db {
              nodes = update_first (λ n. n.id == id) (touch env source at) db.nodes;
            }))
        → IsSeparate source db
            (continue
              (fail_if
                (not own)
                (ingest_error 403 "source cannot overwrite another source node")
                db)
              (λ u.
                fail_if (not same) (ingest_error 422 "already exists as another kind")
                >> modify (λ d. record d {
                  nodes = update_first (λ n. n.id == id) (touch env source at) d.nodes;
                }))).1
    claimed id db false same h = IsSeparate-refl source db
    claimed id db true false h = IsSeparate-refl source db
    claimed id db true true h = h refl

    claim-IsSeparate :
        (ref : EntityRef) (id : String) (db : Db)
        → IsSeparate source db (claim env source at ref id db).1
    unfolding claim
    claim-IsSeparate ref id db = elim (Option-cases (get_node_row id db.nodes)) [
      | inl e ↦ rw e (IsSeparate-refl source db)
      | inr (n, e) ↦ rw e (
          claimed id db (own_node source n) (n.kind == ref.kind)
            (λ own. touch-IsSeparate id n db e own))
    ]

    claim-checked :
        (ref : EntityRef) (id : String) (db : Db)
        → (claim env source at ref id db).0 ≡ ok tt
        → owned source db.nodes id ≡ true
    unfolding claim
    claim-checked ref id db h = ground arith

    -- A reference that is upserted belongs to the source afterwards.
    pub upsert_node-owned :
        (ref : EntityRef) (t : Tally) (db : Db) (id : String) (t' : Tally)
        → (upsert_node env source at ref t db).0 ≡ ok (id, t')
        → owned source (upsert_node env source at ref t db).1.nodes id ≡ true
    unfolding upsert_node
    upsert_node-owned ref t db id t' h =
        let first = continue-ok (locate env source at ref t db) _ h in
        let d = (locate env source at ref t db).1 in
        let second = continue-ok (claim env source at ref first.0.0 d) _ first.2 in
        let same : first.0.0 ≡ id = cc (second.2) in
        rw first.3 (
          rw second.3 (
            subst (λ i. owned source (claim env source at ref first.0.0 d).1.nodes i ≡ true) same
              ((claim-IsSeparate ref first.0.0 d).owned_kept first.0.0
                (claim-checked ref first.0.0 d second.1))))

    upsert_node-IsSeparate :
        (ref : EntityRef) (t : Tally) (db : Db)
        → IsValid source ref
        → IsSeparate source db (upsert_node env source at ref t db).1
    unfolding upsert_node
    upsert_node-IsSeparate ref t db v =
        continue-rel (IsSeparate source) (IsSeparate-trans source) (locate env source at ref t db) _
          db
          (unfold locate in
            locate_in-IsSeparate ref (cached ref.id t.cache)
              (find (has_external ref.id (some source.tenant_id)) db.nodes) t db v)
          (λ a e.
            continue-rel (IsSeparate source) (IsSeparate-trans source)
              (claim env source at ref a.0 (locate env source at ref t db).1) _ _
              (claim-IsSeparate ref a.0 (locate env source at ref t db).1)
              (λ u e'. IsSeparate-refl source _))

    put_edge-IsSeparate :
        (src dst : String) (rel : Relationship) (o : Option AccessEdge) (t : Tally) (db : Db)
        → find (same_edge env source at src rel.relation dst) db.edges ≡ o
        → is_traversable rel.relation ≡ true
        → owned source db.nodes src ≡ true
        → owned source db.nodes dst ≡ true
        → IsSeparate source db (put_edge env source at src dst rel o t db).1
    unfolding put_edge
    put_edge-IsSeparate src dst rel none t db found r s d =
        let e =
          new_edge env source at src dst rel (env.new_id (t.nodes_created + t.edges_created)) in
        record {
          foreign_nodes = refl;
          owned_kept = λ id h. h;
          foreign_edges = λ keep own both. filter-add keep db.edges e (elim (Bool-cases (keep e)) [
            | inl k ↦ absurd (true-ne-false (sym (opt_eq_refl (some source.id)) ∙ own e k))
            | inr k ↦ k
          ]);
          stays = λ c. record {
            nodes_in_place = c.nodes_in_place;
            edges_in_place =
                All-append _ db.edges (e ∷ []) c.edges_in_place
                  (λ own. record { relation = r; from_own = s; to_own = d }, tt);
          };
        }
    put_edge-IsSeparate src dst rel (some e) t db found r s d =
        let p = same_edge env source at src rel.relation dst in
        let f = refresh_edge env source at rel in
        let joins = find-some p db.edges e found in
        let is_src : e.src_id ≡ src = ground (arith, joins.0, eq_iff e.src_id src) in
        let is_dst : e.dst_id ≡ dst = ground (arith, joins.0, eq_iff e.dst_id dst) in
        let is_rel : e.relation ≡ rel.relation =
          ground (arith, joins.0, eq_iff e.relation rel.relation) in
        record {
          foreign_nodes = refl;
          owned_kept = λ id h. h;
          foreign_edges = λ keep own both.
              filter-update_first keep p f db.edges e found
                (elim (Bool-cases (keep e)) [
                  | inl k ↦ absurd (
                      true-ne-false (
                        sym (
                          both_true source _ _
                            (subst (λ x. owned source db.nodes x ≡ true) (sym is_src) s)
                            (subst (λ x. owned source db.nodes x ≡ true) (sym is_dst) d))
                        ∙ both e k))
                  | inr k ↦ k
                ])
                (elim (Bool-cases (keep (f e))) [
                  | inl k ↦
                      absurd (true-ne-false (sym (opt_eq_refl (some source.id)) ∙ own (f e) k))
                  | inr k ↦ k
                ]);
          stays = λ c. record {
            nodes_in_place = c.nodes_in_place;
            edges_in_place =
                All-update_found (λ x. own_edge source x ≡ true → EdgeInPlace source db.nodes x) p f
                  db.edges e found
                  (λ old now. record {
                    relation = subst (λ x. is_traversable x ≡ true) (sym is_rel) r;
                    from_own = subst (λ x. owned source db.nodes x ≡ true) (sym is_src) s;
                    to_own = subst (λ x. owned source db.nodes x ≡ true) (sym is_dst) d;
                  })
                  c.edges_in_place;
          };
        }

    apply_relationship-IsSeparate :
        (rel : Relationship) (t : Tally) (db : Db)
        → IsSound source rel
        → IsSeparate source db (apply_relationship env source at rel t db).1
    unfolding apply_relationship
    apply_relationship-IsSeparate rel t db v =
        continue-rel (IsSeparate source) (IsSeparate-trans source)
          (upsert_node env source at rel.subject t db) _ db
          (upsert_node-IsSeparate rel.subject t db v.subject_valid)
          (λ a e.
            let d1 = (upsert_node env source at rel.subject t db).1 in
            let d2 = (upsert_node env source at rel.target a.1 d1).1 in
            let src_own = upsert_node-owned rel.subject t db a.0 a.1 e in
            let later = upsert_node-IsSeparate rel.target a.1 d1 v.target_valid in
            continue-rel (IsSeparate source) (IsSeparate-trans source)
              (upsert_node env source at rel.target a.1 d1) _ d1 later
              (λ b e'.
                put_edge-IsSeparate a.0 b.0 rel
                  (find (same_edge env source at a.0 rel.relation b.0) d2.edges) b.1 d2 refl
                  v.relation_valid (later.owned_kept a.0 src_own)
                  (upsert_node-owned rel.target a.1 d1 b.0 b.1 e')))

    pub apply_batch-IsSeparate :
        (rels : List Relationship) (t : Tally) (db : Db)
        → All (IsSound source) rels
        → IsSeparate source db (apply_batch env source at rels t db).1
    unfolding apply_batch
    apply_batch-IsSeparate [] t db all = IsSeparate-refl source db
    apply_batch-IsSeparate (rel ∷ rels) t db all =
        continue-rel (IsSeparate source) (IsSeparate-trans source)
          (apply_relationship env source at rel t db) _ db
          (apply_relationship-IsSeparate rel t db all.0)
          (λ t' e.
            apply_batch-IsSeparate rels t' (apply_relationship env source at rel t db).1 all.1)
