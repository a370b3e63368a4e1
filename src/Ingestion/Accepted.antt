-- ===== src/Ingestion/Accepted.antt =====
-- What a call of the collectors' route leaves: its validation, the batch and its receipt
-- (beta/src/eda/ingestion.py, beta/src/eda/api.py).
use mathlib.Core.Path.{◌≡◌, refl, sym, ap, subst}
use enterprise_data_access_a.Base.{
  is_some, ℕ, String, true, not, Option, none, some, List, [], ◌∷◌, ◌++◌, elem, nonempty, Result,
  ok, err, arith, All, filter, is_empty, ltb, length, eqb, Bool-cases, inl, inr,
}
use enterprise_data_access_a.Models.{Db, RelationshipSource, IngestReceipt}
use enterprise_data_access_a.Effects.{settle, continue-rel}
use enterprise_data_access_a.Ingestion.{
  Env, Relationship, EntityRef, Observation, allowed_kinds, side_errors, relationship_errors,
  batch_errors, validate_batch, apply_batch, message_if, get_source, authorized_collector,
  authenticate_collector,
}
use enterprise_data_access_a.Ingestion.Endpoint.{
  ingest, start, ingest_or_replay, ingest_relationships, observed, accept, connector_of,
  is_untimely, receipt_for,
}
use enterprise_data_access_a.Ingestion.Steps.{apply_batch-IsSeparate}
use enterprise_data_access_a.Ingestion.Separate.{
  own_node, own_edge, owned, NodeInPlace, EdgeInPlace, IsSeparate, IsSeparate-refl,
  IsSeparate-trans, IsValid, IsSound,
}

is_empty-append {ℓ} :
    {A : Type ℓ} (xs ys : List A)
    → is_empty (xs ++ ys) ≡ true
    → (is_empty xs ≡ true) × (is_empty ys ≡ true)
is_empty-append [] ys h = (refl, h)
is_empty-append (x ∷ xs) ys h = cc

module _ (source : RelationshipSource) where
  -- Writes of other tables.
  beside : {d d' : Db} → d'.nodes ≡ d.nodes → d'.edges ≡ d.edges → IsSeparate source d d'
  beside {d} {d'} n e = record {
    foreign_nodes = ap (filter (λ m. not (own_node source m))) n;
    owned_kept = λ id h. subst (λ ns. owned source ns id ≡ true) (sym n) h;
    foreign_edges = λ keep own both. ap (filter keep) e;
    stays = λ c. record {
      nodes_in_place =
          subst (All (λ m. own_node source m ≡ true → NodeInPlace source m)) (sym n)
            c.nodes_in_place;
      edges_in_place =
          subst (λ ns. All (λ x. own_edge source x ≡ true → EdgeInPlace source ns x) d'.edges)
            (sym n)
            (subst (All (λ x. own_edge source x ≡ true → EdgeInPlace source d.nodes x)) (sym e)
              c.edges_in_place);
    };
  }

  side-IsValid :
      (ref : EntityRef)
      → is_empty (side_errors source.allowed_namespace ref) ≡ true
      → IsValid source ref
  unfolding side_errors
  side-IsValid ref h =
      let parts =
        is_empty-append (message_if (not (elem ref.kind allowed_kinds)) "kind not allowed") _ h in
      record { kind = ground (arith, parts.0); namespace = ground (arith, parts.1) }

  relationship-IsSound :
      (rel : Relationship)
      → is_empty (relationship_errors source.allowed_namespace rel) ≡ true
      → IsSound source rel
  unfolding relationship_errors
  relationship-IsSound rel h =
      let first = is_empty-append (side_errors source.allowed_namespace rel.subject) _ h in
      let second = is_empty-append (side_errors source.allowed_namespace rel.target) _ first.1 in
      record {
        subject_valid = side-IsValid rel.subject first.0;
        target_valid = side-IsValid rel.target second.0;
        relation_valid = ground (arith, second.1);
      }

  batch-IsSound :
      (rels : List Relationship)
      → is_empty (batch_errors source.allowed_namespace rels) ≡ true
      → All (IsSound source) rels
  unfolding batch_errors
  batch-IsSound [] h = tt
  batch-IsSound (rel ∷ rels) h =
      let parts = is_empty-append (relationship_errors source.allowed_namespace rel) _ h in
      (relationship-IsSound rel parts.0, batch-IsSound rels parts.1)

  -- A batch without errors is sound.
  validated-IsSound :
      (rels : List Relationship) (max_batch : ℕ)
      → is_empty (validate_batch source rels max_batch) ≡ true
      → All (IsSound source) rels
  unfolding validate_batch
  validated-IsSound rels max_batch h =
      let parts = is_empty-append (message_if (eqb (length rels) 0) "empty batch") _ h in
      elim (Bool-cases (ltb max_batch (length rels))) [
        | inl over ↦ absurd (cc (rw over at parts.1))
        | inr fits ↦
            batch-IsSound rels
              (is_empty-append (message_if (not source.enabled) "source disabled") _
                (rw fits at parts.1)).1
      ]

  module _ (env : Env) where
    accept-IsSeparate :
        (rels : List Relationship) (at : ℕ) (db : Db)
        → All (IsSound source) rels
        → IsSeparate source db (accept env source rels at db).1
    unfolding accept
    accept-IsSeparate rels at db sound =
        continue-rel (IsSeparate source) (IsSeparate-trans source)
          (apply_batch env source at rels start db) _ db
          (apply_batch-IsSeparate source env at rels start db sound) (λ t e. beside refl refl)

    ingest-IsSeparate :
        (rels : List Relationship) (o : Option Observation) (db : Db)
        → IsSeparate source db (ingest env source rels o db).1
    unfolding ingest
    ingest-IsSeparate rels o db = elim (Bool-cases (is_some (connector_of env source db))) [
      | inl e ↦ rw e (IsSeparate-refl source db)
      | inr e ↦
          rw e (elim (Bool-cases (not (is_empty (validate_batch source rels env.max_batch)))) [
            | inl v ↦ rw v (IsSeparate-refl source db)
            | inr v ↦ rw v (elim (Bool-cases (is_untimely env (observed env o))) [
              | inl u ↦ rw u (IsSeparate-refl source db)
              | inr u ↦ rw u (
                  accept-IsSeparate rels (observed env o).instant db
                    (validated-IsSound rels env.max_batch (ground (arith, v))))
            ])
          ])
    ]

    replay-IsSeparate :
        (source_id key : String) (rels : List Relationship) (o : Option Observation)
        (r : Option IngestReceipt) (db : Db)
        → IsSeparate source db (ingest_or_replay env source source_id key rels o r db).1
    unfolding ingest_or_replay
    replay-IsSeparate source_id key rels o (some r) db = IsSeparate-refl source db
    replay-IsSeparate source_id key rels o none db =
        continue-rel (IsSeparate source) (IsSeparate-trans source) (ingest env source rels o db) _
          db (ingest-IsSeparate rels o db)
          (λ summary e. elim (Bool-cases (nonempty key)) [
            | inl k ↦ rw k (beside refl refl)
            | inr k ↦ rw k (beside refl refl)
          ])

    settle-IsSeparate :
        {A : Type 0} (db : Db) (r : Result A × Db)
        → IsSeparate source db r.1
        → IsSeparate source db (settle db r).1
    settle-IsSeparate db (ok a, d) h = h
    settle-IsSeparate db (err e, d) h = IsSeparate-refl source db

    -- Whatever a collector sends to its source, and whether it is accepted or not: the nodes of
    -- other sources are as before, and so is every edge of theirs unless it joins two nodes of this
    -- source; a node of this source stays its own; and if every row of this source was in its
    -- tenant, in its namespace, of an allowed kind or relation and between its own nodes, it is so
    -- afterwards.
    pub ingest_relationships-IsSeparate :
        (source_id bearer key : String) (rels : List Relationship) (o : Option Observation)
        (db : Db)
        → get_source source_id db ≡ some source
        → IsSeparate source db (ingest_relationships env source_id bearer key rels o db).1
    unfolding ingest_relationships authenticate_collector
    ingest_relationships-IsSeparate source_id bearer key rels o db found =
        elim (Bool-cases (authorized_collector env.sha256 bearer source)) [
          | inl e ↦
              rw (found, e)
                (settle-IsSeparate db _
                  (replay-IsSeparate source_id key rels o (receipt_for env source_id key db) db))
          | inr e ↦ rw (found, e) (IsSeparate-refl source db)
        ]
