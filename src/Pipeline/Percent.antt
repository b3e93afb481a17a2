-- ===== src/Pipeline/Percent.antt =====
-- src/crawler/pipeline/normalization_steps.py: `_uppercase_percent_encoding` and
-- `_decode_unreserved`. `re.sub` replaces from left to right, and goes on behind what it replaced.
pub mod Laws
pub mod Canonical
use web_crawler.Prelude.{
  ℕ, ◌+◌, ◌-◌, ◌*◌, ◌≡◌, refl, Bool, true, false, ◌&&◌, ◌||◌, List, [], ◌∷◌, ◌++◌, Text, lit, leb,
  ◌==◌, if◌then◌else◌,
}

abbrev pub within : ℕ → ℕ → ℕ → Bool
within low high c = leb low c && leb c high

-- `[0-9a-fA-F]`
unfoldable pub is_hex : ℕ → Bool
is_hex c = within b'0' b'9' c || (within b'a' b'f' c || within b'A' b'F' c)

-- `.upper()` of a hex digit
unfoldable pub upper : ℕ → ℕ
upper c = if within b'a' b'f' c then c - 32 else c

-- `int(d, 16)` of one digit
unfoldable pub hex_value : ℕ → ℕ
hex_value c = if within b'0' b'9' c then c - b'0' else if within b'a' b'f' c then c - 87 else c - 55

-- `_UNRESERVED_CHARS`: letters, digits, "-", ".", "_" and "~"
unfoldable pub is_unreserved : ℕ → Bool
is_unreserved c =
    within b'a' b'z' c
    || (within b'A' b'Z' c
        || (within b'0' b'9' c || (c == b'-' || (c == b'.' || (c == b'_' || c == b'~')))))

-- `%([0-9a-fA-F]{2})` at the head of the text.
unfoldable pub is_triplet : ℕ → ℕ → ℕ → Bool
unfolding is_hex
is_triplet c a b = c == b'%' && (is_hex a && is_hex b)

-- The replacement of a triplet, in `_uppercase_percent_encoding` and in `_decode_unreserved`.
unfoldable pub upper_triplet : ℕ → ℕ → Text
upper_triplet a b = b'%' ∷ upper a ∷ upper b ∷ []

unfoldable pub decode_triplet : ℕ → ℕ → Text
unfolding is_unreserved hex_value upper_triplet upper
decode_triplet a b =
    let char = 16 * hex_value a + hex_value b in
    if is_unreserved char then char ∷ [] else upper_triplet a b

-- `_PERCENT_ENCODED_RE.sub`
unfoldable pub sub : (ℕ → ℕ → Text) → Text → Text
sub replace [] = []
sub replace (c ∷ []) = c ∷ []
sub replace (c ∷ a ∷ []) = c ∷ a ∷ []
sub replace (c ∷ a ∷ b ∷ rest) =
    let behind = sub replace rest in
    let onward = sub replace (a ∷ b ∷ rest) in
    if is_triplet c a b then replace a b ++ behind else c ∷ onward

unfoldable pub uppercase_percent_encoding : Text → Text
uppercase_percent_encoding = sub upper_triplet

unfoldable pub decode_unreserved : Text → Text
decode_unreserved = sub decode_triplet

decode_runs : decode_unreserved (lit "/%7euser%2fx%zz%4") ≡ lit "/~user%2Fx%zz%4"
unfolding decode_unreserved sub is_triplet decode_triplet lit
decode_runs = refl

uppercase_runs : uppercase_percent_encoding (lit "/a%2fb%3D%e") ≡ lit "/a%2Fb%3D%e"
unfolding uppercase_percent_encoding sub is_triplet upper_triplet upper lit
uppercase_runs = refl
