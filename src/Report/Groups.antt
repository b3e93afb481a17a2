-- ===== src/Report/Groups.antt =====
-- The listings of src/analyze_crawl.py: their order and their counts.
use web_crawler.Prelude.{
  ℕ, ◌+◌, ◌≤◌, ◌≡◌, ◌↔◌, refl, ◌∙◌, ap, Bool, true, List, [], ◌∷◌, arith, All, All-mono, count,
  length, leb, inl, inr, Bool-cases, if◌then◌else◌,
}
use web_crawler.Report.{tally, group_by, insert, order_by, descending, breakdown}

module _ {K : Type 0} where
  pub total : List (K × ℕ) → ℕ
  total [] = 0
  total (e ∷ es) = e.1 + total es

  -- The larger entries come first.
  pub IsDescending : List (K × ℕ) → Type 0
  IsDescending [] = Unit {0}
  IsDescending (e ∷ es) = All (λ f. f.1 ≤ e.1) es × IsDescending es

  All-insert :
      (P : K × ℕ → Type 0) (e : K × ℕ) (es : List (K × ℕ))
      → P e
      → All P es
      → All P (insert descending e es)
  unfolding insert
  All-insert P e [] p h = (p, tt)
  All-insert P e (f ∷ es) p h = elim (Bool-cases (leb f.1 e.1)) [
    | inl larger ↦ rw larger (p, h)
    | inr smaller ↦ rw smaller (h.0, All-insert P e es p h.1)
  ]

  IsDescending-insert :
      (e : K × ℕ) (es : List (K × ℕ)) → IsDescending es → IsDescending (insert descending e es)
  unfolding insert IsDescending
  IsDescending-insert e [] o = (tt, tt)
  IsDescending-insert e (f ∷ es) o = elim (Bool-cases (leb f.1 e.1)) [
    | inl larger ↦
        rw larger
          ((ground arith, All-mono (λ g. g.1 ≤ f.1) _ es (λ g h. ground (arith, larger)) o.0), o)
    | inr smaller ↦
        rw smaller
          (All-insert (λ g. g.1 ≤ f.1) e es (ground arith) o.0, IsDescending-insert e es o.1)
  ]

  IsDescending-order_by : (es : List (K × ℕ)) → IsDescending (order_by descending es)
  unfolding order_by IsDescending
  IsDescending-order_by [] = tt
  IsDescending-order_by (e ∷ es) =
      IsDescending-insert e (order_by descending es) (IsDescending-order_by es)

  total-insert : (e : K × ℕ) (es : List (K × ℕ)) → total (insert descending e es) ≡ e.1 + total es
  unfolding insert total
  total-insert e [] = refl
  total-insert e (f ∷ es) = ground (arith, total-insert e es)

  total-order_by : (es : List (K × ℕ)) → total (order_by descending es) ≡ total es
  unfolding order_by total
  total-order_by [] = refl
  total-order_by (e ∷ es) =
      omega (arith, total-insert e (order_by descending es), total-order_by es)

  module _ (same : K → K → Bool) where
    -- The number that a listing gives for a key.
    pub listed : K → List (K × ℕ) → ℕ
    listed key [] = 0
    listed key (e ∷ es) = (if same e.0 key then e.1 else 0) + listed key es

    listed-insert :
        (key : K) (e : K × ℕ) (es : List (K × ℕ))
        → listed key (insert descending e es) ≡ listed key (e ∷ es)
    unfolding insert listed
    listed-insert key e [] = refl
    listed-insert key e (f ∷ es) = ground (arith, listed-insert key e es)

    listed-order_by :
        (key : K) (es : List (K × ℕ)) → listed key (order_by descending es) ≡ listed key es
    unfolding order_by listed
    listed-order_by key [] = refl
    listed-order_by key (e ∷ es) =
        omega (arith, listed-insert key e (order_by descending es), listed-order_by key es)

    total-tally : (key : K) (es : List (K × ℕ)) → total (tally same key es) ≡ total es + 1
    unfolding tally total
    total-tally key [] = refl
    total-tally key (e ∷ es) = ground (arith, total-tally key es)

    total-group_by : (keys : List K) → total (group_by same keys) ≡ length keys
    unfolding group_by total
    total-group_by [] = refl
    total-group_by (k ∷ keys) =
        omega (arith, total-tally k (group_by same keys), total-group_by keys)

    module _ (decides : (a b : K) → (same a b ≡ true) ↔ (a ≡ b)) where
      listed-tally :
          (key x : K) (es : List (K × ℕ))
          → listed key (tally same x es) ≡ listed key es + (if same x key then 1 else 0)
      unfolding tally listed
      listed-tally key x [] = ground arith
      listed-tally key x (e ∷ es) = elim (Bool-cases (same e.0 x)) [
        | inl found ↦ rw found (rw (ap (λ a. same a key) ((decides e.0 x).0 found)) (ground arith))
        | inr other ↦ rw other (omega (arith, listed-tally key x es))
      ]

      listed-group_by :
          (key : K) (keys : List K) → listed key (group_by same keys) ≡ count (λ x. same x key) keys
      unfolding group_by listed
      listed-group_by key [] = refl
      listed-group_by key (x ∷ keys) =
          omega (arith, listed-tally key x (group_by same keys), listed-group_by key keys)

      -- A listing of groups, by an equality that is decided, gives for every key the number of the
      -- rows with it, counts every row once, and has the larger groups first.
      pub breakdown_lem :
          (keys : List K)
          → IsDescending (breakdown same keys)
            × ((key : K) → listed key (breakdown same keys) ≡ count (λ x. same x key) keys)
            × (total (breakdown same keys) ≡ length keys)
      unfolding breakdown
      breakdown_lem keys = (
        IsDescending-order_by (group_by same keys),
        λ key. listed-order_by key (group_by same keys) ∙ listed-group_by key keys,
        total-order_by (group_by same keys) ∙ total-group_by keys,
      )
