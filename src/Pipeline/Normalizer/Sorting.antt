-- ===== src/Pipeline/Normalizer/Sorting.antt =====
-- `SortQueryParamsStep` of src/crawler/pipeline/normalization_steps.py: the order of the parameters.
use web_crawler.Prelude.{
  ◌≡◌, refl, ap, ◌∙◌, Bool, true, false, [], ◌∷◌, Text, text_eq_iff, arith, count, Bool-cases, ◌⊎◌,
  inl, inr,
}
use web_crawler.Pipeline.Context.{Params}
use web_crawler.Pipeline.Normalizer.{text_le, pair_le, insert_param, sort_params}

text_le_total : (s t : Text) → text_le s t ≡ false → text_le t s ≡ true
unfolding text_le
text_le_total [] t h = absurd (cc)
text_le_total (a ∷ s) [] h = refl
text_le_total (a ∷ s) (b ∷ t) h = ground (arith, text_le_total s t)

pair_le_total : (p q : Text × Text) → pair_le p q ≡ false → pair_le q p ≡ true
unfolding pair_le
pair_le_total (n, v) (m, w) h =
    ground (arith, text_eq_iff n m, text_eq_iff m n, text_le_total v w, text_le_total n m)

-- Each parameter comes no later than the next.
abbrev pub IsSorted : Params → Type 0
IsSorted [] = Unit {0}
IsSorted (p ∷ []) = Unit {0}
IsSorted (p ∷ q ∷ qs) = (pair_le p q ≡ true) × IsSorted (q ∷ qs)

IsSorted-insert : (p : Text × Text) (qs : Params) → IsSorted qs → IsSorted (insert_param p qs)
unfolding insert_param
IsSorted-insert p [] h = tt
IsSorted-insert p (q ∷ []) h = elim (Bool-cases (pair_le p q)) [
  | inl e ↦ rw e (e, tt)
  | inr e ↦ rw e (pair_le_total p q e, tt)
]
IsSorted-insert p (q ∷ r ∷ rs) h = elim (Bool-cases (pair_le p q)) [
  | inl e ↦ rw e (e, h)
  | inr e ↦
      rw e (below (pair_le_total p q e) (Bool-cases (pair_le p r)) (IsSorted-insert p (r ∷ rs) h.1))
]
  where
    below :
        pair_le q p ≡ true
        → (pair_le p r ≡ true) ⊎ (pair_le p r ≡ false)
        → IsSorted (insert_param p (r ∷ rs))
        → IsSorted (q ∷ insert_param p (r ∷ rs))
    below l (inl e) k = rw e (l, (e, h.1))
    below l (inr e) k = rw e (h.0, rw e at k)

pub IsSorted-sort_params : (ps : Params) → IsSorted (sort_params ps)
unfolding sort_params
IsSorted-sort_params [] = tt
IsSorted-sort_params (p ∷ ps) = IsSorted-insert p (sort_params ps) (IsSorted-sort_params ps)

-- Sorted parameters stay as they are.
pub sort_params_sorted : (ps : Params) → IsSorted ps → sort_params ps ≡ ps
unfolding sort_params insert_param
sort_params_sorted [] h = refl
sort_params_sorted (p ∷ []) h = refl
sort_params_sorted (p ∷ q ∷ qs) h = ap (insert_param p) (sort_params_sorted (q ∷ qs) h.1) ∙ rw h.0

count-insert_param :
    (f : Text × Text → Bool) (p : Text × Text) (qs : Params)
    → count f (insert_param p qs) ≡ count f (p ∷ qs)
unfolding insert_param
count-insert_param f p [] = refl
count-insert_param f p (q ∷ qs) = ground (arith, count-insert_param f p qs)

pub count-sort_params :
    (f : Text × Text → Bool) (ps : Params) → count f (sort_params ps) ≡ count f ps
unfolding sort_params
count-sort_params f [] = refl
count-sort_params f (p ∷ ps) =
    omega (arith, count-insert_param f p (sort_params ps), count-sort_params f ps)

-- The parameters of a query are put in order, and none is lost, added or changed; putting them in
-- order once more changes nothing.
pub sort_params_lem :
    (ps : Params)
    → IsSorted (sort_params ps)
      × ((f : Text × Text → Bool) → count f (sort_params ps) ≡ count f ps)
      × (sort_params (sort_params ps) ≡ sort_params ps)
sort_params_lem ps = (
  IsSorted-sort_params ps,
  λ f. count-sort_params f ps,
  sort_params_sorted (sort_params ps) (IsSorted-sort_params ps),
)
