-- ===== src/Graph/Walk.antt =====
-- What an authority path is, independently of the search: a walk of usable edges without repeated
-- nodes, of at most eight edges, whose actions permit the one that is asked for.
use enterprise_data_access_a.Base.{
  String, false, List, [], ◌∷◌, ◌++◌, ◌==◌, ◌≡◌, refl, any, arith, All,
}
use enterprise_data_access_a.Models.{AccessEdge}

-- The edges lead from one node to another.
abbrev pub IsWalk : String → List AccessEdge → String → Type 0
IsWalk s [] t = s ≡ t
IsWalk s (e ∷ es) t = (e.src_id ≡ s) × IsWalk e.dst_id es t

-- No edge leads to a node that the walk has left.
abbrev pub IsSimple : List String → List AccessEdge → Type 0
IsSimple seen [] = Unit
IsSimple seen (e ∷ es) = (any (λ id. id == e.dst_id) seen ≡ false) × IsSimple (e.dst_id ∷ seen) es

pub IsWalk-concat :
    (s m : String) (es : List AccessEdge) (e : AccessEdge)
    → IsWalk s es m
    → e.src_id ≡ m
    → IsWalk s (es ++ e ∷ []) e.dst_id
IsWalk-concat s m [] e w h = (ground arith, refl)
IsWalk-concat s m (x ∷ xs) e w h = (w.0, IsWalk-concat x.dst_id m xs e w.1 h)

pub IsSimple-concat :
    (seen : List String) (es : List AccessEdge) (e : AccessEdge)
    → IsSimple seen es
    → any (λ id. id == e.dst_id) seen ≡ false
    → any (λ x. x.dst_id == e.dst_id) es ≡ false
    → IsSimple seen (es ++ e ∷ [])
IsSimple-concat seen [] e s h k = (h, tt)
IsSimple-concat seen (x ∷ xs) e s h k =
    (s.0, IsSimple-concat (x.dst_id ∷ seen) xs e s.1 (ground arith) (ground arith))

pub All-concat {ℓ κ} :
    {A : Type ℓ} (P : A → Type κ) (xs : List A) (a : A) → All P xs → P a → All P (xs ++ a ∷ [])
All-concat P [] a all h = (h, tt)
All-concat P (x ∷ xs) a all h = (all.0, All-concat P xs a all.1 h)

pub All-append {ℓ κ} :
    {A : Type ℓ} (P : A → Type κ) (xs ys : List A) → All P xs → All P ys → All P (xs ++ ys)
All-append P [] ys all rest = rest
All-append P (x ∷ xs) ys all rest = (all.0, All-append P xs ys all.1 rest)
