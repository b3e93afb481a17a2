-- ===== src/Pipeline/Slash.antt =====
-- `TrailingSlashStep` of src/crawler/pipeline/normalization_steps.py.
use web_crawler.Prelude.{
  ℕ, ◌≡◌, ◌≢◌, refl, ◌⊎◌, inl, inr, true, false, [], ◌∷◌, Text, arith, All, Bool-cases,
}
use web_crawler.Pipeline.Context.{unless_slash, rstrip_slashes, ends_with_slash, trailing_slash}

-- Some character is not a slash.
abbrev pub HasName : Text → Type 0
HasName [] = ⊥
HasName (c ∷ t) = (c ≢ b'/') ⊎ HasName t

ends-unless :
    (c : ℕ) (t : Text) → ends_with_slash t ≡ false → ends_with_slash (unless_slash c t) ≡ false
unfolding ends_with_slash
ends-unless c [] h = ground arith
ends-unless c (d ∷ t) h = h

-- What is left by `rstrip` ends in no slash.
ends-rstrip : (t : Text) → ends_with_slash (rstrip_slashes t) ≡ false
unfolding rstrip_slashes
ends-rstrip [] = unfold ends_with_slash in refl
ends-rstrip (c ∷ t) = ends-unless c (rstrip_slashes t) (ends-rstrip t)

unless-ne-nil : (c : ℕ) (t : Text) → t ≢ [] → unless_slash c t ≢ []
unless-ne-nil c [] h e = h refl
unless-ne-nil c (d ∷ t) h e = cc

rstrip-ne-nil : (t : Text) → HasName t → rstrip_slashes t ≢ []
unfolding rstrip_slashes
rstrip-ne-nil [] h e = h
rstrip-ne-nil (c ∷ t) (inl n) e = name_first (rstrip_slashes t) e
  where
    name_first : (s : Text) → unless_slash c s ≡ [] → ⊥
    name_first [] e = ground arith
    name_first (d ∷ s) e = cc
rstrip-ne-nil (c ∷ t) (inr h) e = unless-ne-nil c (rstrip_slashes t) (rstrip-ne-nil t h) e

-- A path that ends in no slash, and is not empty, stays.
pub trailing_slash_stays : (t : Text) → t ≢ [] → ends_with_slash t ≡ false → trailing_slash t ≡ t
unfolding trailing_slash
trailing_slash_stays [] n h = absurd (n refl)
trailing_slash_stays (c ∷ []) n h = ground arith
trailing_slash_stays (c ∷ d ∷ t) n h = ground arith

pub trailing_slash_strips :
    (c : ℕ) (t : Text)
    → HasName (c ∷ t)
    → ends_with_slash (c ∷ t) ≡ true
    → trailing_slash (c ∷ t) ≡ rstrip_slashes (c ∷ t)
unfolding trailing_slash
trailing_slash_strips c [] (inl n) h = ground arith
trailing_slash_strips c [] (inr n) h = absurd n
trailing_slash_strips c (d ∷ t) n h = ground arith

-- The trailing slashes of a path with a name in it go, it stays not empty, and a second time
-- nothing changes.
pub trailing_slash_lem :
    (t : Text)
    → HasName t
    → (ends_with_slash (trailing_slash t) ≡ false)
      × (trailing_slash t ≢ [])
      × (trailing_slash (trailing_slash t) ≡ trailing_slash t)
trailing_slash_lem [] h = absurd h
trailing_slash_lem (c ∷ t) h = elim (Bool-cases (ends_with_slash (c ∷ t))) [
  | inl e ↦
      let left = rstrip-ne-nil (c ∷ t) h in
      let ends = ends-rstrip (c ∷ t) in
      rw (trailing_slash_strips c t h e)
        (ends, left, trailing_slash_stays (rstrip_slashes (c ∷ t)) left ends)
  | inr e ↦ let stays = trailing_slash_stays (c ∷ t) (λ p. cc) e in rw stays (e, λ p. cc, stays)
]

rstrip-All : (t : Text) → All (λ c. c ≡ b'/') t → rstrip_slashes t ≡ []
unfolding rstrip_slashes
rstrip-All [] h = refl
rstrip-All (c ∷ t) h = rw (rstrip-All t h.1) (ground (arith, h.0))

ends-All : (c : ℕ) (t : Text) → c ≡ b'/' → All (λ c. c ≡ b'/') t → ends_with_slash (c ∷ t) ≡ true
unfolding ends_with_slash
ends-All c [] e h = ground arith
ends-All c (d ∷ t) e h = ends-All d t h.0 h.1

-- `TrailingSlashStep` makes a path of two slashes or more empty, and only the second time the root.
pub trailing_slash_not_idem :
    (c d : ℕ) (t : Text)
    → All (λ c. c ≡ b'/') (c ∷ d ∷ t)
    → (trailing_slash (c ∷ d ∷ t) ≡ []) × (trailing_slash (trailing_slash (c ∷ d ∷ t)) ≡ b'/' ∷ [])
trailing_slash_not_idem c d t h = rw (becomes_empty) (refl, unfold trailing_slash in refl)
  where
    becomes_empty : trailing_slash (c ∷ d ∷ t) ≡ []
    becomes_empty =
        unfold trailing_slash in ground (arith, ends-All c (d ∷ t), rstrip-All (c ∷ d ∷ t))
