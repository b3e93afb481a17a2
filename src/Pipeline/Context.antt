-- ===== src/Pipeline/Context.antt =====
-- src/crawler/pipeline/context.py and normalization_steps.py: the context of the normalizer, the
-- standard library's functions that the steps call, and `TrailingSlashStep`.
use web_crawler.Prelude.{ℕ, Bool, false, Option, List, [], ◌∷◌, Text, ◌==◌, if◌then◌else◌}
use web_crawler.Config.{ParsedUrl}
use web_crawler.Types.{Result}

pub record NormalizationContext : Type 0 where
  pub raw_url : Text
  pub scheme : Text
  pub host : Text
  pub port : Option ℕ
  pub path : Text
  pub query : Text
  pub rejected : Bool

-- Name and value of a query parameter.
abbrev pub Params : Type 0
Params = List (Text × Text)

-- `urllib.parse`, and `str.isspace` of a character. `urlunparse` is given the scheme, the network
-- location, the path and the query; its other two parts are empty.
pub record UrlLib : Type 0 where
  pub is_space : ℕ → Bool
  pub urlparse : Text → Result ParsedUrl
  pub urlunparse : Text → Text → Text → Text → Text
  pub parse_qsl : Text → Params
  pub urlencode : Params → Text

-- `path.rstrip("/")`
abbrev pub unless_slash : ℕ → Text → Text
unless_slash c [] = if c == b'/' then [] else c ∷ []
unless_slash c (d ∷ t) = c ∷ d ∷ t

unfoldable pub rstrip_slashes : Text → Text
rstrip_slashes [] = []
rstrip_slashes (c ∷ t) = unless_slash c (rstrip_slashes t)

-- `path.endswith("/")`
unfoldable pub ends_with_slash : Text → Bool
ends_with_slash [] = false
ends_with_slash (c ∷ []) = c == b'/'
ends_with_slash (c ∷ d ∷ t) = ends_with_slash (d ∷ t)

abbrev pub is_root : Text → Bool
is_root [] = false
is_root (c ∷ []) = c == b'/'
is_root (c ∷ d ∷ t) = false

unfoldable pub trailing_slash : Text → Text
unfolding rstrip_slashes ends_with_slash
trailing_slash [] = b'/' ∷ []
trailing_slash (c ∷ t) =
    if is_root (c ∷ t)
    then c ∷ t
    else if ends_with_slash (c ∷ t)
    then rstrip_slashes (c ∷ t)
    else c ∷ t
