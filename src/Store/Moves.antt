-- ===== src/Store/Moves.antt =====
-- The state machine of a row of `url_records` in src/crawler/metadata_store.py, as a step
-- relation, and that every statement on the table follows it.
use web_crawler.Prelude.{
  ℕ, suc, ◌<◌, ◌≡◌, refl, Bool, true, ◌⊎◌, inl, inr, Option, List, [], ◌∷◌, ◌++◌, Text, arith, All,
  Bool-cases, if◌then◌else◌,
}
use web_crawler.Types.{CrawlState, in_progress, retry}
use web_crawler.Store.{UrlRecord, update}
use web_crawler.Store.Frontier.{
  is_leasable, is_leasable_at, take_lease, extend, reset, new_record, Candidate, lease_each,
}
use web_crawler.Store.Transitions.{complete, schedule, fail, give_up}

pub data Moves (r r' : UrlRecord) : Type 0 where
  stays : r' ≡ r → Moves r r'
  leased :
      (now expires : ℕ) (token : Text)
      → is_leasable now r ≡ true
      → r' ≡ take_lease token expires r
      → Moves r r'
  renewed :
      (expires : ℕ)
      → r.crawl_state ≡ in_progress
      → r.lease_renewal_count < 3
      → r' ≡ extend expires r
      → Moves r r'
  released : r.crawl_state ≡ in_progress → r' ≡ reset r → Moves r r'
  completed :
      (now : ℕ) (hash mime etag : Option Text)
      → r.crawl_state ≡ in_progress
      → r' ≡ complete now hash mime etag r
      → Moves r r'
  retried :
      (n : ℕ) (at : Option ℕ) (reason : Option Text)
      → r.crawl_state ≡ in_progress
      → r' ≡ schedule n at reason r
      → Moves r r'
  failed :
      (reason : Option Text)
      → r.crawl_state ≡ in_progress
      → r' ≡ fail CrawlState.failed reason r
      → Moves r r'
  terminated :
      (reason : Option Text)
      → r.crawl_state ≡ in_progress
      → r' ≡ fail CrawlState.terminal_failed reason r
      → Moves r r'
  exhausted : (reason : Option Text) → r.crawl_state ≡ retry → r' ≡ give_up reason r → Moves r r'

-- A row that `enqueue` has just put in.
abbrev pub IsFresh : UrlRecord → Type 0
IsFresh r =
    (now : ℕ) × (depth : ℕ) × (parent : Option Text) × (redirects : ℕ) × (r
      ≡ new_record now r.normalized_url r.url depth parent redirects)

-- A table after a call: each row moved by one step, and new rows at the end.
abbrev pub Evolves : List UrlRecord → List UrlRecord → Type 0
Evolves [] ys = All IsFresh ys
Evolves (x ∷ xs) [] = ⊥
Evolves (x ∷ xs) (y ∷ ys) = Moves x y × Evolves xs ys

pub Evolves-update :
    (p : UrlRecord → Bool) (f : UrlRecord → UrlRecord)
    → ((r : UrlRecord) → p r ≡ true → Moves r (f r))
    → (rows : List UrlRecord) → Evolves rows (update p f rows)
unfolding update
Evolves-update p f move [] = tt
Evolves-update p f move (r ∷ rs) = elim (Bool-cases (p r)) [
  | inl e ↦ rw e (move r e, Evolves-update p f move rs)
  | inr e ↦ rw e (stays refl, Evolves-update p f move rs)
]

pub Evolves-append :
    (rows : List UrlRecord) (r : UrlRecord) → IsFresh r → Evolves rows (rows ++ r ∷ [])
Evolves-append [] r h = (h, tt)
Evolves-append (x ∷ xs) r h = (stays refl, Evolves-append xs r h)

pub Evolves-refl : (rows : List UrlRecord) → Evolves rows rows
Evolves-refl [] = tt
Evolves-refl (x ∷ xs) = (stays refl, Evolves-refl xs)

-- What the loop of `acquire_lease_batch` does to a row, however many candidates there are.
abbrev Leases : ℕ → ℕ → UrlRecord → UrlRecord → Type 0
Leases now expires r r' =
    (r' ≡ r) ⊎ ((token : Text) × (is_leasable now r ≡ true) × (r' ≡ take_lease token expires r))

abbrev AllLease : ℕ → ℕ → List UrlRecord → List UrlRecord → Type 0
AllLease now expires [] [] = Unit {0}
AllLease now expires [] (y ∷ ys) = ⊥
AllLease now expires (x ∷ xs) [] = ⊥
AllLease now expires (x ∷ xs) (y ∷ ys) = Leases now expires x y × AllLease now expires xs ys

AllLease-refl : (now expires : ℕ) (rows : List UrlRecord) → AllLease now expires rows rows
AllLease-refl now expires [] = tt
AllLease-refl now expires (x ∷ xs) = (inl refl, AllLease-refl now expires xs)

Leases-step :
    (now expires : ℕ) (key token : Text) (r r' : UrlRecord)
    → Leases now expires r r'
    → Leases now expires r (if is_leasable_at now key r' then take_lease token expires r' else r')
Leases-step now expires key token r r' (inl e) = elim (Bool-cases (is_leasable_at now key r')) [
  | inl hit ↦ rw hit (inr (token, ground arith, ground arith))
  | inr miss ↦ rw miss (inl e)
]
Leases-step now expires key token r r' (inr (t, h, e)) =
    elim (Bool-cases (is_leasable_at now key r')) [
      | inl hit ↦ rw hit (inr (token, h, ground arith))
      | inr miss ↦ rw miss (inr (t, h, e))
    ]

AllLease-update :
    (now expires : ℕ) (key token : Text) (rows rows' : List UrlRecord)
    → AllLease now expires rows rows'
    → AllLease now expires rows (update (is_leasable_at now key) (take_lease token expires) rows')
unfolding update
AllLease-update now expires key token [] [] h = tt
AllLease-update now expires key token [] (y ∷ ys) h = h
AllLease-update now expires key token (x ∷ xs) [] h = h
AllLease-update now expires key token (x ∷ xs) (y ∷ ys) h =
    (Leases-step now expires key token x y h.0, AllLease-update now expires key token xs ys h.1)

AllLease-lease_each :
    (draw : ℕ → Text) (i now expires : ℕ) (cs : List Candidate) (rows rows' : List UrlRecord)
    → AllLease now expires rows rows'
    → AllLease now expires rows (lease_each draw i now expires cs rows').0
unfolding lease_each
AllLease-lease_each draw i now expires [] rows rows' h = h
AllLease-lease_each draw i now expires (c ∷ cs) rows rows' h =
    AllLease-lease_each draw (suc i) now expires cs rows _
      (AllLease-update now expires c.normalized_url (draw i) rows rows' h)

Evolves-of_AllLease :
    (now expires : ℕ) (rows rows' : List UrlRecord)
    → AllLease now expires rows rows'
    → Evolves rows rows'
Evolves-of_AllLease now expires [] [] h = tt
Evolves-of_AllLease now expires [] (y ∷ ys) h = absurd h
Evolves-of_AllLease now expires (x ∷ xs) [] h = h
Evolves-of_AllLease now expires (x ∷ xs) (y ∷ ys) h =
    (move h.0, Evolves-of_AllLease now expires xs ys h.1)
  where
    move : Leases now expires x y → Moves x y
    move (inl e) = stays e
    move (inr (token, can, e)) = leased now expires token can e

pub Evolves-lease_each :
    (draw : ℕ → Text) (now expires : ℕ) (cs : List Candidate) (rows : List UrlRecord)
    → Evolves rows (lease_each draw 0 now expires cs rows).0
Evolves-lease_each draw now expires cs rows =
    Evolves-of_AllLease now expires rows _
      (AllLease-lease_each draw 0 now expires cs rows rows (AllLease-refl now expires rows))
