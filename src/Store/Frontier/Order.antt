-- ===== src/Store/Frontier/Order.antt =====
-- The candidates of `acquire_lease_batch` in src/crawler/metadata_store.py: their order, and that
-- the query loses and invents none.
use web_crawler.Prelude.{
  ℕ, zero, suc, ◌+◌, ◌≤◌, ◌≡◌, refl, Bool, true, false, ◌&&◌, ◌<◌, ◌∙◌, ◌⊎◌, inl, inr, List, [],
  ◌∷◌, ◌++◌, map, Text, text_eq, arith, All, All-take, All-mono, count, count-append, keep, take,
  length, Bool-cases, leb, if◌then◌else◌,
}
use web_crawler.Prelude.Int.{ℤ, pos, negsuc}
use web_crawler.Store.{UrlRecord, has_key}
use web_crawler.Store.Frontier.{
  Candidate, candidate, candidates, union_all, order_by, insert, ranks_le, limit, is_leasable,
  is_pending, is_ready_retry, is_expired,
}

-- A lower number of the priority comes first, and in the same priority the lower depth does.
abbrev pub Precedes : Candidate → Candidate → Type 0
Precedes c d =
    (c.priority < d.priority) ⊎ ((c.priority ≡ d.priority) × (c.crawl_depth ≤ d.crawl_depth))

-- Each candidate precedes all that follow it.
abbrev pub IsOrdered : List Candidate → Type 0
IsOrdered [] = Unit {0}
IsOrdered (c ∷ cs) = All (Precedes c) cs × IsOrdered cs

Precedes-ranks_le : (a b : Candidate) → ranks_le a b ≡ true → Precedes a b
Precedes-ranks_le a b h = ground arith

Precedes-total : (a b : Candidate) → ranks_le a b ≡ false → Precedes b a
Precedes-total a b h = ground arith

Precedes-trans : (a b c : Candidate) → Precedes a b → Precedes b c → Precedes a c
Precedes-trans a b c (inl h) (inl k) = inl (omega arith)
Precedes-trans a b c (inl h) (inr k) = inl (ground (arith, k.0))
Precedes-trans a b c (inr h) (inl k) = inl (ground (arith, h.0))
Precedes-trans a b c (inr h) (inr k) = inr (h.0 ∙ k.0, let x = h.1 in let y = k.1 in omega arith)

All-insert {κ} :
    (P : Candidate → Type κ) (c : Candidate) (ds : List Candidate)
    → P c
    → All P ds
    → All P (insert c ds)
unfolding insert
All-insert P c [] p h = (p, tt)
All-insert P c (d ∷ ds) p h = elim (Bool-cases (ranks_le c d)) [
  | inl e ↦ rw e (p, h)
  | inr e ↦ rw e (h.0, All-insert P c ds p h.1)
]

IsOrdered-insert : (c : Candidate) (ds : List Candidate) → IsOrdered ds → IsOrdered (insert c ds)
unfolding insert
IsOrdered-insert c [] o = (tt, tt)
IsOrdered-insert c (d ∷ ds) o = elim (Bool-cases (ranks_le c d)) [
  | inl e ↦
      let first = Precedes-ranks_le c d e in
      rw e (
        (first, All-mono (Precedes d) (Precedes c) ds (λ x h. Precedes-trans c d x first h) o.0),
        o,
      )
  | inr e ↦
      rw e (All-insert (Precedes d) c ds (Precedes-total c d e) o.0, IsOrdered-insert c ds o.1)
]

IsOrdered-order_by : (cs : List Candidate) → IsOrdered (order_by cs)
unfolding order_by
IsOrdered-order_by [] = tt
IsOrdered-order_by (c ∷ cs) = IsOrdered-insert c (order_by cs) (IsOrdered-order_by cs)

count-insert :
    (p : Candidate → Bool) (c : Candidate) (ds : List Candidate)
    → count p (insert c ds) ≡ count p (c ∷ ds)
unfolding insert
count-insert p c [] = refl
count-insert p c (d ∷ ds) = ground (arith, count-insert p c ds)

count-order_by : (p : Candidate → Bool) (cs : List Candidate) → count p (order_by cs) ≡ count p cs
unfolding order_by
count-order_by p [] = refl
count-order_by p (c ∷ cs) = omega (arith, count-insert p c (order_by cs), count-order_by p cs)

-- Sorted candidates split by `LIMIT`: those that are left out rank after those that are taken.
pub IsOrdered-take : (n : ℕ) (cs : List Candidate) → IsOrdered cs → IsOrdered (take n cs)
IsOrdered-take zero cs o = tt
IsOrdered-take (suc n) [] o = tt
IsOrdered-take (suc n) (c ∷ cs) o = (All-take _ n cs o.0, IsOrdered-take n cs o.1)

-- The candidates come in the order of their tiers and, within a tier, of their depths.
pub IsOrdered-candidates :
    (now : ℕ) (size : ℤ) (rows : List UrlRecord) → IsOrdered (candidates now size rows)
unfolding candidates
IsOrdered-candidates now (pos n) rows = IsOrdered-take n _ (IsOrdered-order_by (union_all now rows))
IsOrdered-candidates now (negsuc n) rows = IsOrdered-order_by (union_all now rows)

-- Where a tier's rows go.
count-tier :
    (p : Candidate → Bool) (tier : ℕ) (q : UrlRecord → Bool) (rows : List UrlRecord)
    → count p (map (candidate tier) (keep q rows)) ≡ count (λ r. q r && p (candidate tier r)) rows
count-tier p tier q [] = refl
count-tier p tier q (r ∷ rs) = ground (arith, count-tier p tier q rs)

-- A row is in at most one of the three tiers.
count_of_tiers :
    (now : ℕ) (p : Candidate → Bool) (q : UrlRecord → Bool)
    → ((tier : ℕ) (r : UrlRecord) → p (candidate tier r) ≡ q r)
    → (rows : List UrlRecord)
    → count (λ r. is_ready_retry now r && p (candidate 1 r)) rows
        + count (λ r. is_expired now r && p (candidate 2 r)) rows
        + count (λ r. is_pending r && p (candidate 3 r)) rows
      ≡ count (λ r. q r && is_leasable now r) rows
count_of_tiers now p q same [] = refl
count_of_tiers now p q same (r ∷ rs) =
    ground (arith, same 1 r, same 2 r, same 3 r, count_of_tiers now p q same rs)

-- The query finds the retries that are due in the first tier, the lapsed leases in the second and the
-- pending rows in the third, each of them once and nothing else.
count-union_all_tiers :
    (now : ℕ) (p : Candidate → Bool) (rows : List UrlRecord)
    → count p (union_all now rows)
      ≡ count (λ r. is_ready_retry now r && p (candidate 1 r)) rows
        + count (λ r. is_expired now r && p (candidate 2 r)) rows
        + count (λ r. is_pending r && p (candidate 3 r)) rows
unfolding union_all
count-union_all_tiers now p rows =
    let ready : List Candidate = map (candidate 1) (keep (is_ready_retry now) rows) in
    let lapsed : List Candidate = map (candidate 2) (keep (is_expired now) rows) in
    let waiting : List Candidate = map (candidate 3) (keep is_pending rows) in
    omega (
      arith,
      count-append p ready (lapsed ++ waiting),
      count-append p lapsed waiting,
      count-tier p 1 (is_ready_retry now) rows,
      count-tier p 2 (is_expired now) rows,
      count-tier p 3 is_pending rows,
    )

-- What the query finds, it finds as often as there are rows that can be leased.
count-union_all :
    (now : ℕ) (p : Candidate → Bool) (q : UrlRecord → Bool)
    → ((tier : ℕ) (r : UrlRecord) → p (candidate tier r) ≡ q r)
    → (rows : List UrlRecord)
    → count p (union_all now rows) ≡ count (λ r. q r && is_leasable now r) rows
count-union_all now p q same rows =
    count-union_all_tiers now p rows ∙ count_of_tiers now p q same rows

-- And so it is with all candidates, put in order.
pub count-candidates_tiers :
    (now n : ℕ) (p : Candidate → Bool) (rows : List UrlRecord)
    → count p (candidates now (negsuc n) rows)
      ≡ count (λ r. is_ready_retry now r && p (candidate 1 r)) rows
        + count (λ r. is_expired now r && p (candidate 2 r)) rows
        + count (λ r. is_pending r && p (candidate 3 r)) rows
unfolding candidates
count-candidates_tiers now n p rows =
    count-order_by p (union_all now rows) ∙ count-union_all_tiers now p rows

abbrev pub is_for : Text → Candidate → Bool
is_for key c = text_eq c.normalized_url key

count-take-le :
    (p : Candidate → Bool) (n : ℕ) (cs : List Candidate) → count p (take n cs) ≤ count p cs
count-take-le p zero cs = omega arith
count-take-le p (suc n) [] = omega arith
count-take-le p (suc n) (c ∷ cs) = omega (arith, count-take-le p n cs)

count-limit-le :
    (p : Candidate → Bool) (size : ℤ) (cs : List Candidate) → count p (limit size cs) ≤ count p cs
count-limit-le p (pos n) cs = count-take-le p n cs
count-limit-le p (negsuc n) cs = omega arith

-- A key is a candidate no more often than there are rows with it that can be leased.
pub count-candidates-le :
    (now : ℕ) (size : ℤ) (key : Text) (rows : List UrlRecord)
    → count (is_for key) (candidates now size rows)
      ≤ count (λ r. has_key key r && is_leasable now r) rows
unfolding candidates
count-candidates-le now size key rows = omega (
  arith,
  count-limit-le (is_for key) size (order_by (union_all now rows)),
  count-order_by (is_for key) (union_all now rows),
  count-union_all now (is_for key) (has_key key) (λ tier r. refl) rows,
)

-- `min(n, m)`
abbrev pub min : ℕ → ℕ → ℕ
min n m = if leb n m then n else m

length-take : (n : ℕ) (cs : List Candidate) → length (take n cs) ≡ min n (length cs)
length-take zero cs = ground arith
length-take (suc n) [] = ground arith
length-take (suc n) (c ∷ cs) = ground (arith, length-take n cs)

count-true {ℓ} : {A : Type ℓ} (xs : List A) → count (λ _. true) xs ≡ length xs
count-true [] = refl
count-true (x ∷ xs) = omega (arith, count-true xs)

-- There are as many candidates as rows that can be leased, up to the limit.
pub length-candidates :
    (now n : ℕ) (rows : List UrlRecord)
    → length (candidates now (pos n) rows) ≡ min n (count (is_leasable now) rows)
unfolding candidates
length-candidates now n rows = ground (
  arith,
  length-take n (order_by (union_all now rows)),
  count-true (order_by (union_all now rows)),
  count-true (union_all now rows),
  count-order_by (λ _. true) (union_all now rows),
  count-union_all now (λ _. true) (λ _. true) (λ tier r. refl) rows,
)
