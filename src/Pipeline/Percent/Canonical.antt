-- ===== src/Pipeline/Percent/Canonical.antt =====
-- The paths that the steps of src/crawler/pipeline/normalization_steps.py leave alone.
use web_crawler.Prelude.{
  ℕ, ◌+◌, ◌*◌, ◌≡◌, ◌≢◌, refl, sym, ap, ◌∙◌, ◌⊎◌, Bool, true, false, inl, inr, [], ◌∷◌, ◌++◌, Text,
  ◌==◌, arith, Bool-cases, if◌then◌else◌,
}
use web_crawler.Pipeline.Percent.{
  upper, hex_value, is_hex, is_unreserved, is_triplet, upper_triplet, decode_triplet, sub,
  uppercase_percent_encoding, decode_unreserved,
}
use web_crawler.Pipeline.Percent.Laws.{
  IsEncoded, sub-nil, sub_plain, sub_triplet, is_triplet-upper, triplet_hex, upper_idem,
  hex_value-upper, hex_not_percent,
}
use web_crawler.Pipeline.Slash.{HasName, trailing_slash_lem}
use web_crawler.Pipeline.Context.{
  rstrip_slashes, unless_slash, ends_with_slash, is_root, trailing_slash,
}

-- Every percent sign begins a triplet in capitals that stands for a reserved character.
pub data IsCanonical : Text → Type 0 where
  nil : IsCanonical []
  plain : (c : ℕ) (t : Text) → (c == b'%') ≡ false → IsCanonical t → IsCanonical (c ∷ t)
  triplet :
      (c a b : ℕ) (t : Text)
      → is_triplet c a b ≡ true
      → upper a ≡ a
      → upper b ≡ b
      → is_unreserved (16 * hex_value a + hex_value b) ≡ false
      → IsCanonical t
      → IsCanonical (c ∷ a ∷ b ∷ t)

percent_first : (c a b : ℕ) → is_triplet c a b ≡ true → c ≡ b'%'
unfolding is_triplet
percent_first c a b h = ground arith

upper_triplet_self :
    (c a b : ℕ)
    → is_triplet c a b ≡ true
    → upper a ≡ a
    → upper b ≡ b
    → upper_triplet a b ≡ c ∷ a ∷ b ∷ []
unfolding upper_triplet
upper_triplet_self c a b h p q = ground (arith, percent_first c a b h)

pub uppercase-canonical : {t : Text} → IsCanonical t → uppercase_percent_encoding t ≡ t
unfolding uppercase_percent_encoding
uppercase-canonical nil = sub-nil upper_triplet
uppercase-canonical (plain c t h e) =
    sub_plain upper_triplet c t h ∙ ap (◌∷◌ c) (uppercase-canonical e)
uppercase-canonical (triplet c a b t h p q r e) =
    sub_triplet upper_triplet c a b t h
    ∙ (simp (upper_triplet_self c a b h p q)
        (ap (λ (s : Text). c ∷ a ∷ b ∷ s) (uppercase-canonical e)))

decode_triplet_reserved :
    (a b : ℕ)
    → is_unreserved (16 * hex_value a + hex_value b) ≡ false
    → decode_triplet a b ≡ upper_triplet a b
unfolding decode_triplet
decode_triplet_reserved a b r = rw r

pub decode-canonical : {t : Text} → IsCanonical t → decode_unreserved t ≡ t
unfolding decode_unreserved
decode-canonical nil = sub-nil decode_triplet
decode-canonical (plain c t h e) = sub_plain decode_triplet c t h ∙ ap (◌∷◌ c) (decode-canonical e)
decode-canonical (triplet c a b t h p q r e) =
    sub_triplet decode_triplet c a b t h
    ∙ (simp (decode_triplet_reserved a b r, upper_triplet_self c a b h p q)
        (ap (λ (s : Text). c ∷ a ∷ b ∷ s) (decode-canonical e)))

decoded-canonical :
    (c a b : ℕ) (t : Text)
    → is_triplet c a b ≡ true
    → IsCanonical t
    → IsCanonical (decode_triplet a b ++ t)
unfolding decode_triplet upper_triplet
decoded-canonical c a b t h e =
    let hexes = triplet_hex c a b h in
    let char = 16 * hex_value a + hex_value b in
    elim (Bool-cases (is_unreserved char)) [
      | inl u ↦ rw u (plain char t (hex_not_percent char u) e)
      | inr r ↦ rw r (
          triplet b'%' (upper a) (upper b) t (is_triplet-upper c a b h) (upper_idem a)
            (upper_idem b) (simp (hex_value-upper a hexes.0, hex_value-upper b hexes.1) r) e)
    ]

IsCanonical-decode : {t : Text} → IsEncoded t → IsCanonical (decode_unreserved t)
unfolding decode_unreserved
IsCanonical-decode IsEncoded.nil = simp sub-nil nil
IsCanonical-decode (IsEncoded.plain c t h e) =
    simp (sub_plain decode_triplet c t h) (plain c _ h (IsCanonical-decode e))
IsCanonical-decode (IsEncoded.triplet c a b t h e) =
    simp (sub_triplet decode_triplet c a b t h) (decoded-canonical c a b _ h (IsCanonical-decode e))

uppered-IsEncoded :
    (c a b : ℕ) (t : Text)
    → is_triplet c a b ≡ true
    → IsEncoded t
    → IsEncoded (upper_triplet a b ++ t)
unfolding upper_triplet
uppered-IsEncoded c a b t h e =
    IsEncoded.triplet b'%' (upper a) (upper b) t (is_triplet-upper c a b h) e

IsEncoded-upper : {t : Text} → IsEncoded t → IsEncoded (uppercase_percent_encoding t)
unfolding uppercase_percent_encoding
IsEncoded-upper IsEncoded.nil = simp sub-nil IsEncoded.nil
IsEncoded-upper (IsEncoded.plain c t h e) =
    simp (sub_plain upper_triplet c t h) (IsEncoded.plain c _ h (IsEncoded-upper e))
IsEncoded-upper (IsEncoded.triplet c a b t h e) =
    simp (sub_triplet upper_triplet c a b t h) (uppered-IsEncoded c a b _ h (IsEncoded-upper e))

hex_not_slash : (c a b : ℕ) → is_triplet c a b ≡ true → (a ≢ b'/') × (b ≢ b'/')
unfolding is_triplet is_hex
hex_not_slash c a b h = (λ e. ground arith, λ e. ground arith)

unless_slash_name : (c : ℕ) (t : Text) → c ≢ b'/' → unless_slash c t ≡ c ∷ t
unless_slash_name c [] h = ground arith
unless_slash_name c (d ∷ t) h = refl

unless_slash-canonical :
    (c : ℕ) (t : Text) → (c == b'%') ≡ false → IsCanonical t → IsCanonical (unless_slash c t)
unless_slash-canonical c [] h e = elim (Bool-cases (c == b'/')) [
  | inl s ↦ rw s nil
  | inr n ↦ rw n (plain c [] h nil)
]
unless_slash-canonical c (d ∷ t) h e = plain c (d ∷ t) h e

IsCanonical-rstrip : {t : Text} → IsCanonical t → IsCanonical (rstrip_slashes t)
unfolding rstrip_slashes
IsCanonical-rstrip nil = nil
IsCanonical-rstrip (plain c t h e) = unless_slash-canonical c _ h (IsCanonical-rstrip e)
IsCanonical-rstrip (triplet c a b t h p q r e) =
    let names = hex_not_slash c a b h in
    simp (unless_slash_name b (rstrip_slashes t) names.1)
      (triplet c a b (rstrip_slashes t) h p q r (IsCanonical-rstrip e))

canonical_if :
    (b : Bool) (s t : Text) → IsCanonical s → IsCanonical t → IsCanonical (if b then s else t)
canonical_if true s t h k = h
canonical_if false s t h k = k

IsCanonical-trailing : {t : Text} → IsCanonical t → IsCanonical (trailing_slash t)
unfolding trailing_slash
IsCanonical-trailing nil = plain b'/' [] (ground arith) nil
IsCanonical-trailing (plain c t h e) =
    let all = plain c t h e in
    canonical_if (is_root (c ∷ t)) _ _ all
      (canonical_if (ends_with_slash (c ∷ t)) _ _ (IsCanonical-rstrip all) all)
IsCanonical-trailing (triplet c a b t h p q r e) =
    let all = triplet c a b t h p q r e in
    canonical_if (ends_with_slash (b ∷ t)) _ _ (IsCanonical-rstrip all) all

-- The path that the steps make of a path: capitals, decoding and the trailing slash.
abbrev pub canonical_path : Text → Text
canonical_path path = trailing_slash (decode_unreserved (uppercase_percent_encoding path))

-- The paths whose trailing slashes go for good: those with a name in them, the empty one and the
-- root. The others are rows of slashes.
abbrev pub IsPlain : Text → Type 0
IsPlain t = HasName t ⊎ (t ≡ []) ⊎ (t ≡ b'/' ∷ [])

canonical_root : canonical_path (b'/' ∷ []) ≡ b'/' ∷ []
unfolding trailing_slash decode_unreserved uppercase_percent_encoding sub
canonical_root = refl

trailing-root : (t : Text) → (t ≡ []) ⊎ (t ≡ b'/' ∷ []) → trailing_slash t ≡ b'/' ∷ []
unfolding trailing_slash
trailing-root t (inl e) = rw e refl
trailing-root t (inr e) = rw e refl

-- Of a path in which every percent sign begins a triplet, and which is no row of slashes once it is
-- decoded, the steps make a path that they leave alone.
pub canonical_path_idem :
    (path : Text)
    → IsEncoded path
    → IsPlain (decode_unreserved (uppercase_percent_encoding path))
    → canonical_path (canonical_path path) ≡ canonical_path path
canonical_path_idem path e (inl n) =
    let once = IsCanonical-trailing (IsCanonical-decode (IsEncoded-upper e)) in
    ap (λ t. trailing_slash (decode_unreserved t)) (uppercase-canonical once)
    ∙ (ap trailing_slash (decode-canonical once) ∙ (trailing_slash_lem _ n).2)
canonical_path_idem path e (inr o) =
    let root = trailing-root (decode_unreserved (uppercase_percent_encoding path)) o in
    ap canonical_path root ∙ (canonical_root ∙ sym root)
