-- ===== src/Connectors/Entries.antt =====
-- What the writes of a connector's facts do to its entries (beta/src/eda/connectors/sync.py).
use mathlib.Core.Path.{◌≡◌, refl, sym, ◌∙◌, ap}
use enterprise_data_access_a.Base.{
  String, Bool, true, false, not, ◌||◌, Option, none, some, List, [], ◌∷◌, ◌++◌, ◌==◌, find, filter,
  if◌then◌else◌, all, any, opt_eq, update_first, arith, eq_iff, eq_refl, Bool-cases, inl, inr,
  Option-cases,
}
use enterprise_data_access_a.Models.{Payload, ConnectorFact}
use enterprise_data_access_a.Connectors.Facts.{
  of_generation, is_fact, new_fact, put_fact, drop_generation, promote_generation, bury,
}
use enterprise_data_access_a.Connectors.Protocol.{upsert, without, entries, is_placed}

module _ (s : String) where
  entries-append :
      (g : String) (fs : List ConnectorFact) (f : ConnectorFact)
      → entries s g (fs ++ f ∷ []) ≡ (
          if of_generation s g f
          then entries s g fs ++ (f.fact_key, f.payload) ∷ []
          else entries s g fs)
  unfolding entries
  entries-append g [] f = ground arith
  entries-append g (x ∷ fs) f = ground (arith, entries-append g fs f)

  upsert-fresh :
      (g k : String) (p : Payload) (fs : List ConnectorFact)
      → find (is_fact s g k) fs ≡ none
      → upsert k p (entries s g fs) ≡ entries s g fs ++ (k, p) ∷ []
  unfolding entries upsert
  upsert-fresh g k p [] h = refl
  upsert-fresh g k p (f ∷ fs) h = ground (arith, upsert-fresh g k p fs)

  upsert-found :
      (g k : String) (p : Payload) (fs : List ConnectorFact) (old : ConnectorFact)
      → find (is_fact s g k) fs ≡ some old
      → entries s g (update_first (is_fact s g k) (λ f. record f { payload = p }) fs)
        ≡ upsert k p (entries s g fs)
  unfolding entries upsert update_first
  upsert-found g k p [] old h = cc
  upsert-found g k p (f ∷ fs) old h = ground (arith, upsert-found g k p fs old)

  -- A fact that is put, in its generation and in another.
  pub entries-put_fact :
      (g k : String) (p : Payload) (fs : List ConnectorFact)
      → entries s g (put_fact s g k p (find (is_fact s g k) fs) fs) ≡ upsert k p (entries s g fs)
  unfolding put_fact
  entries-put_fact g k p fs = elim (Option-cases (find (is_fact s g k) fs)) [
    | inl e ↦ rw e (
        entries-append g fs (new_fact s g k p)
        ∙ rw (eq_refl s, eq_refl g) (sym (upsert-fresh g k p fs e)))
    | inr (old, e) ↦ rw e (upsert-found g k p fs old e)
  ]

  update-other :
      (g g' k : String) (p : Payload) (fs : List ConnectorFact)
      → (g == g') ≡ false
      → entries s g' (update_first (is_fact s g k) (λ f. record f { payload = p }) fs)
        ≡ entries s g' fs
  unfolding entries update_first
  update-other g g' k p [] h = refl
  update-other g g' k p (f ∷ fs) h =
      ground (
        arith,
        update-other g g' k p fs,
        eq_iff f.generation g,
        eq_iff f.generation g',
        eq_iff g g',
      )

  pub entries-put_other :
      (g g' k : String) (p : Payload) (o : Option ConnectorFact) (fs : List ConnectorFact)
      → (g == g') ≡ false
      → entries s g' (put_fact s g k p o fs) ≡ entries s g' fs
  unfolding put_fact
  entries-put_other g g' k p none fs h = entries-append g' fs (new_fact s g k p) ∙ ground (arith, h)
  entries-put_other g g' k p (some old) fs h = update-other g g' k p fs h

  pub entries-drop :
      (g g' : String) (fs : List ConnectorFact)
      → entries s g' (drop_generation s g fs) ≡ (if g == g' then [] else entries s g' fs)
  unfolding entries drop_generation
  entries-drop g g' [] = ground arith
  entries-drop g g' (f ∷ fs) =
      ground
        (arith, entries-drop g g' fs, eq_iff f.generation g, eq_iff f.generation g', eq_iff g g')

  -- The staged facts become the live ones.
  pub entries-promote :
      (g : String) (fs : List ConnectorFact)
      → (g == "live") ≡ false
      → entries s "live" (promote_generation s g (drop_generation s "live" fs)) ≡ entries s g fs
  unfolding entries drop_generation promote_generation
  entries-promote g [] h = refl
  entries-promote g (f ∷ fs) h = elim (Bool-cases (of_generation s "live" f)) [
    | inl e ↦ rw e (
        entries-promote g fs h
        ∙ ground (arith, e, h, eq_iff f.generation g, eq_iff f.generation "live", eq_iff g "live"))
    | inr e ↦ rw e (elim (Bool-cases (of_generation s g f)) [
      | inl e' ↦ rw (e', eq_refl "live") (ground (arith, e', entries-promote g fs h))
      | inr e' ↦ rw (e', e) (entries-promote g fs h)
    ])
  ]

  filter-entries :
      (k : String) (fs : List ConnectorFact)
      → entries s "live" (filter (λ f. not (is_fact s "live" k f)) fs)
        ≡ filter (λ e. not (e.0 == k)) (entries s "live" fs)
  unfolding entries
  filter-entries k [] = refl
  filter-entries k (f ∷ fs) = ground (arith, filter-entries k fs)

  pub entries-bury :
      (ks : List String) (fs : List ConnectorFact)
      → entries s "live" (bury s ks fs) ≡ without ks (entries s "live" fs)
  unfolding bury
  entries-bury [] fs = refl
  entries-bury (k ∷ ks) fs =
      entries-bury ks (filter (λ f. not (is_fact s "live" k f)) fs)
      ∙ ap (without ks) (filter-entries k fs)

  pub entries-none :
      (g : String) (fs : List ConnectorFact)
      → any (of_generation s g) fs ≡ false
      → entries s g fs ≡ []
  unfolding entries
  entries-none g [] h = refl
  entries-none g (f ∷ fs) h = ground (arith, h, entries-none g fs)

  -- Where the facts of the source stand after each write.
  pub placed-append :
      (a : Option String) (fs : List ConnectorFact) (f : ConnectorFact)
      → all (is_placed s a) fs ≡ true
      → is_placed s a f ≡ true
      → all (is_placed s a) (fs ++ f ∷ []) ≡ true
  placed-append a [] f h k = ground (arith, k)
  placed-append a (x ∷ fs) f h k = ground (arith, k, placed-append a fs f)

  placed-update :
      (a : Option String) (q : ConnectorFact → Bool) (p : Payload) (fs : List ConnectorFact)
      → all (is_placed s a) fs ≡ true
      → all (is_placed s a) (update_first q (λ f. record f { payload = p }) fs) ≡ true
  unfolding update_first
  placed-update a q p [] h = refl
  placed-update a q p (f ∷ fs) h = ground (arith, placed-update a q p fs)

  pub placed-put_fact :
      (a : Option String) (g k : String) (p : Payload) (o : Option ConnectorFact)
      (fs : List ConnectorFact)
      → all (is_placed s a) fs ≡ true
      → (g == "live" || opt_eq (some g) a) ≡ true
      → all (is_placed s a) (put_fact s g k p o fs) ≡ true
  unfolding put_fact
  placed-put_fact a g k p none fs h e =
      placed-append a fs (new_fact s g k p) h (rw e (ground arith))
  placed-put_fact a g k p (some old) fs h e = placed-update a (is_fact s g k) p fs h

  -- Facts that are placed where nothing is staged are placed for any snapshot.
  pub placed-open :
      (a : Option String) (fs : List ConnectorFact)
      → all (is_placed s none) fs ≡ true
      → all (is_placed s a) fs ≡ true
  placed-open a [] h = refl
  placed-open a (f ∷ fs) h = ground (arith, placed-open a fs)

  pub placed-drop :
      (g : String) (fs : List ConnectorFact)
      → all (is_placed s (some g)) fs ≡ true
      → all (is_placed s none) (drop_generation s g fs) ≡ true
  unfolding drop_generation
  placed-drop g [] h = refl
  placed-drop g (f ∷ fs) h = elim (Bool-cases (of_generation s g f)) [
    | inl e ↦ rw e (placed-drop g fs (ground (arith, h)))
    | inr e ↦ rw e (ground (arith, h, e, placed-drop g fs))
  ]

  pub placed-promote :
      (g : String) (fs : List ConnectorFact)
      → all (is_placed s (some g)) fs ≡ true
      → all (is_placed s none) (promote_generation s g (drop_generation s "live" fs)) ≡ true
  unfolding drop_generation promote_generation
  placed-promote g [] h = refl
  placed-promote g (f ∷ fs) h = elim (Bool-cases (of_generation s "live" f)) [
    | inl e ↦ rw e (placed-promote g fs (ground (arith, h)))
    | inr e ↦ rw e (elim (Bool-cases (of_generation s g f)) [
      | inl e' ↦ rw (e', eq_refl "live") (ground (arith, h, placed-promote g fs))
      | inr e' ↦ rw e' (ground (arith, h, e, e', placed-promote g fs))
    ])
  ]

  placed-filter :
      (a : Option String) (q : ConnectorFact → Bool) (fs : List ConnectorFact)
      → all (is_placed s a) fs ≡ true
      → all (is_placed s a) (filter q fs) ≡ true
  placed-filter a q [] h = refl
  placed-filter a q (f ∷ fs) h = ground (arith, placed-filter a q fs)

  pub placed-bury :
      (a : Option String) (ks : List String) (fs : List ConnectorFact)
      → all (is_placed s a) fs ≡ true
      → all (is_placed s a) (bury s ks fs) ≡ true
  unfolding bury
  placed-bury a [] fs h = h
  placed-bury a (k ∷ ks) fs h =
      placed-bury a ks _ (placed-filter a (λ f. not (is_fact s "live" k f)) fs h)
