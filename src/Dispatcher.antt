-- ===== src/Dispatcher.antt =====
-- src/crawler/content_dispatcher.py: `ContentDispatcher`. The table of processors is a list in the
-- order of their registration. Which characters `str.strip` removes is an argument.
pub mod Choice
mod Tests
use web_crawler.Prelude.{
  ℕ, Bool, true, false, Option, none, some, List, [], ◌∷◌, map, Text, text_eq, lower, starts_with,
  ◌==◌, if◌then◌else◌,
}

-- `text.split(";")[0]`
unfoldable pub before_semicolon : Text → Text
before_semicolon [] = []
before_semicolon (c ∷ t) = if c == b';' then [] else c ∷ before_semicolon t

-- `text.lstrip()`, `text.rstrip()` and `text.strip()`.
unfoldable pub lstrip : (ℕ → Bool) → Text → Text
lstrip is_space [] = []
lstrip is_space (c ∷ t) = let rest = lstrip is_space t in if is_space c then rest else c ∷ t

abbrev pub unless_space : (ℕ → Bool) → ℕ → Text → Text
unless_space is_space c [] = if is_space c then [] else c ∷ []
unless_space is_space c (d ∷ t) = c ∷ d ∷ t

unfoldable pub rstrip : (ℕ → Bool) → Text → Text
rstrip is_space [] = []
rstrip is_space (c ∷ t) = unless_space is_space c (rstrip is_space t)

abbrev pub strip : (ℕ → Bool) → Text → Text
strip is_space t = rstrip is_space (lstrip is_space t)

-- The type that a Content-Type header names, without its parameters.
unfoldable pub mime_of : (ℕ → Bool) → Text → Text
unfolding before_semicolon lstrip rstrip
mime_of is_space content_type = map lower (strip is_space (before_semicolon content_type))

module _ {ℓ} {P : Type ℓ} where
  unfoldable pub register : Text → P → List (Text × P) → List (Text × P)
  register mime_prefix p [] = (mime_prefix, p) ∷ []
  register mime_prefix p ((key, q) ∷ rest) =
      if text_eq key mime_prefix then (key, p) ∷ rest else (key, q) ∷ register mime_prefix p rest

  unfoldable pub exact : Text → List (Text × P) → Option P
  exact mime [] = none
  exact mime ((key, p) ∷ rest) = if text_eq key mime then some p else exact mime rest

  unfoldable pub by_prefix : Text → List (Text × P) → Option P
  by_prefix mime [] = none
  by_prefix mime ((key, p) ∷ rest) = if starts_with mime key then some p else by_prefix mime rest

  abbrev pub first_of : Option P → Option P → Option P
  first_of (some p) q = some p
  first_of none q = q

  unfoldable pub dispatch : (ℕ → Bool) → List (Text × P) → Text → Option P
  unfolding mime_of exact by_prefix
  dispatch is_space processors content_type =
      let mime = mime_of is_space content_type in
      first_of (exact mime processors) (by_prefix mime processors)
