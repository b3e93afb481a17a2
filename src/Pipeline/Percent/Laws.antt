-- ===== src/Pipeline/Percent/Laws.antt =====
-- The percent encodings of src/crawler/pipeline/normalization_steps.py: what the two replacements
-- leave, and when they leave it alone a second time.
use web_crawler.Prelude.{
  ℕ, ◌+◌, ◌*◌, ◌≡◌, ◌≢◌, refl, ap, ◌∙◌, true, false, inl, inr, [], ◌∷◌, ◌++◌, Text, lit, arith,
  ◌==◌, Bool-cases,
}
use web_crawler.Pipeline.Percent.{
  is_hex, upper, hex_value, is_unreserved, is_triplet, upper_triplet, decode_triplet, sub,
  uppercase_percent_encoding, decode_unreserved,
}

-- Every percent sign begins a triplet.
pub data IsEncoded : Text → Type 0 where
  nil : IsEncoded []
  plain : (c : ℕ) (t : Text) → (c == b'%') ≡ false → IsEncoded t → IsEncoded (c ∷ t)
  triplet :
      (c a b : ℕ) (t : Text) → is_triplet c a b ≡ true → IsEncoded t → IsEncoded (c ∷ a ∷ b ∷ t)

pub hex_not_percent : (c : ℕ) → is_unreserved c ≡ true → (c == b'%') ≡ false
unfolding is_unreserved
hex_not_percent c h = ground arith

is_hex-upper : (c : ℕ) → is_hex c ≡ true → is_hex (upper c) ≡ true
unfolding is_hex upper
is_hex-upper c h = ground arith

pub upper_idem : (c : ℕ) → upper (upper c) ≡ upper c
unfolding upper
upper_idem c = ground arith

pub hex_value-upper : (c : ℕ) → is_hex c ≡ true → hex_value (upper c) ≡ hex_value c
unfolding is_hex upper hex_value
hex_value-upper c h = ground arith

module _ (replace : ℕ → ℕ → Text) where
  -- What is no percent sign is copied.
  pub sub_plain : (c : ℕ) (t : Text) → (c == b'%') ≡ false → sub replace (c ∷ t) ≡ c ∷ sub replace t
  unfolding sub is_triplet
  sub_plain c [] h = refl
  sub_plain c (a ∷ []) h = refl
  sub_plain c (a ∷ b ∷ t) h = ground arith

  pub sub_triplet :
      (c a b : ℕ) (t : Text)
      → is_triplet c a b ≡ true
      → sub replace (c ∷ a ∷ b ∷ t) ≡ replace a b ++ sub replace t
  unfolding sub
  sub_triplet c a b t h = rw h

-- The bytes that a text stands for: each triplet is one.
abbrev byte : ℕ → ℕ → Text
byte a b = (16 * hex_value a + hex_value b) ∷ []

pub unquote : Text → Text
unquote = sub byte

pub is_triplet-upper :
    (c a b : ℕ) → is_triplet c a b ≡ true → is_triplet b'%' (upper a) (upper b) ≡ true
unfolding is_triplet
is_triplet-upper c a b h = ground (arith, is_hex-upper a, is_hex-upper b)

pub triplet_hex : (c a b : ℕ) → is_triplet c a b ≡ true → (is_hex a ≡ true) × (is_hex b ≡ true)
unfolding is_triplet
triplet_hex c a b h = ground arith

module _ (c a b : ℕ) (t : Text) (h : is_triplet c a b ≡ true) where
  -- An upper-cased triplet is upper-cased and decoded as it stands.
  upper_again :
      sub upper_triplet (upper_triplet a b ++ t) ≡ upper_triplet a b ++ sub upper_triplet t
  unfolding upper_triplet
  upper_again =
      simp (
        sub_triplet upper_triplet b'%' (upper a) (upper b) t (is_triplet-upper c a b h),
        upper_idem,
      )

  decode_again :
      sub decode_triplet (decode_triplet a b ++ t) ≡ decode_triplet a b ++ sub decode_triplet t
  unfolding decode_triplet upper_triplet
  decode_again =
      let hexes = triplet_hex c a b h in
      let char = 16 * hex_value a + hex_value b in
      elim (Bool-cases (is_unreserved char)) [
        | inl u ↦ rw u (sub_plain decode_triplet char t (hex_not_percent char u))
        | inr r ↦ rw r (
            sub_triplet decode_triplet b'%' (upper a) (upper b) t (is_triplet-upper c a b h)
            ∙ simp (hex_value-upper a hexes.0, hex_value-upper b hexes.1, r, upper_idem))
      ]

  byte_decoded : sub byte (decode_triplet a b ++ t) ≡ byte a b ++ sub byte t
  unfolding decode_triplet upper_triplet
  byte_decoded =
      let hexes = triplet_hex c a b h in
      let char = 16 * hex_value a + hex_value b in
      elim (Bool-cases (is_unreserved char)) [
        | inl u ↦ rw u (sub_plain byte char t (hex_not_percent char u))
        | inr r ↦ rw r (
            sub_triplet byte b'%' (upper a) (upper b) t (is_triplet-upper c a b h)
            ∙ simp (hex_value-upper a hexes.0, hex_value-upper b hexes.1))
      ]

  decoded : IsEncoded t → IsEncoded (decode_triplet a b ++ t)
  unfolding decode_triplet upper_triplet
  decoded e =
      let char = 16 * hex_value a + hex_value b in
      elim (Bool-cases (is_unreserved char)) [
        | inl u ↦ rw u (plain char t (hex_not_percent char u) e)
        | inr r ↦ rw r (triplet b'%' (upper a) (upper b) t (is_triplet-upper c a b h) e)
      ]

pub sub-nil : (replace : ℕ → ℕ → Text) → sub replace [] ≡ []
unfolding sub
sub-nil replace = refl

sub-decode_idem :
    {t : Text} → IsEncoded t → sub decode_triplet (sub decode_triplet t) ≡ sub decode_triplet t
sub-decode_idem nil = simp sub-nil
sub-decode_idem (plain c t h e) =
    simp (sub_plain decode_triplet c t h)
      (sub_plain decode_triplet c (sub decode_triplet t) h ∙ ap (◌∷◌ c) (sub-decode_idem e))
sub-decode_idem (triplet c a b t h e) = simp (sub_triplet decode_triplet c a b t h) (
    decode_again c a b (sub decode_triplet t) h
    ∙ ap (◌++◌ (decode_triplet a b)) (sub-decode_idem e))

sub-upper_idem :
    {t : Text} → IsEncoded t → sub upper_triplet (sub upper_triplet t) ≡ sub upper_triplet t
sub-upper_idem nil = simp sub-nil
sub-upper_idem (plain c t h e) =
    simp (sub_plain upper_triplet c t h)
      (sub_plain upper_triplet c (sub upper_triplet t) h ∙ ap (◌∷◌ c) (sub-upper_idem e))
sub-upper_idem (triplet c a b t h e) =
    simp (sub_triplet upper_triplet c a b t h)
      (upper_again c a b (sub upper_triplet t) h ∙ ap (◌++◌ (upper_triplet a b)) (sub-upper_idem e))

sub-byte-decode : {t : Text} → IsEncoded t → sub byte (sub decode_triplet t) ≡ sub byte t
sub-byte-decode nil = simp sub-nil
sub-byte-decode (plain c t h e) =
    simp (sub_plain decode_triplet c t h, sub_plain byte c t h)
      (sub_plain byte c (sub decode_triplet t) h ∙ ap (◌∷◌ c) (sub-byte-decode e))
sub-byte-decode (triplet c a b t h e) =
    simp (sub_triplet decode_triplet c a b t h, sub_triplet byte c a b t h)
      (byte_decoded c a b (sub decode_triplet t) h ∙ ap (◌++◌ (byte a b)) (sub-byte-decode e))

IsEncoded-decode : {t : Text} → IsEncoded t → IsEncoded (sub decode_triplet t)
IsEncoded-decode nil = simp sub-nil nil
IsEncoded-decode (plain c t h e) =
    simp (sub_plain decode_triplet c t h) (plain c _ h (IsEncoded-decode e))
IsEncoded-decode (triplet c a b t h e) =
    simp (sub_triplet decode_triplet c a b t h) (decoded c a b _ h (IsEncoded-decode e))

-- In a text in which every percent sign begins a triplet, `_decode_unreserved` leaves the same bytes
-- encoded, leaves every percent sign at the beginning of a triplet, and changes nothing the second
-- time.
pub decode_unreserved_lem :
    {t : Text}
    → IsEncoded t
    → (unquote (decode_unreserved t) ≡ unquote t)
      × IsEncoded (decode_unreserved t)
      × (decode_unreserved (decode_unreserved t) ≡ decode_unreserved t)
unfolding decode_unreserved unquote
decode_unreserved_lem e = (sub-byte-decode e, IsEncoded-decode e, sub-decode_idem e)

-- In such a text `_uppercase_percent_encoding` changes nothing the second time.
pub uppercase_idem :
    {t : Text}
    → IsEncoded t
    → uppercase_percent_encoding (uppercase_percent_encoding t) ≡ uppercase_percent_encoding t
unfolding uppercase_percent_encoding
uppercase_idem e = sub-upper_idem e

-- For every text that starts with "%%34%31", a second `_decode_unreserved` changes what the first
-- one returned.
pub decode_unreserved_not_idem :
    (rest : Text)
    → decode_unreserved (decode_unreserved (lit "%%34%31" ++ rest))
      ≢ decode_unreserved (lit "%%34%31" ++ rest)
unfolding decode_unreserved sub is_triplet decode_triplet lit
decode_unreserved_not_idem rest e = ground arith
