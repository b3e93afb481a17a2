-- ===== src/Pipeline/Normalizer/Parts.antt =====
-- The parts of a URL that the default normalizer of src/crawler/url_normalizer.py writes, described
-- without its steps.
use web_crawler.Prelude.{ℕ, ◌<◌, ◌≡◌, ◌≢◌, ◌⊎◌, [], ◌∷◌, Text, lit}
use web_crawler.Pipeline.Context.{Params}

-- The order of a dictionary.
pub TextLe : Text → Text → Type 0
TextLe [] t = Unit {0}
TextLe (a ∷ s) [] = ⊥
TextLe (a ∷ s) (b ∷ t) = (a < b) ⊎ ((a ≡ b) × TextLe s t)

-- By name, and by value in the same name.
abbrev pub ParamLe : Text × Text → Text × Text → Type 0
ParamLe (n, v) (m, u) = ((n ≡ m) × TextLe v u) ⊎ ((n ≢ m) × TextLe n m)

pub IsAscending : Params → Type 0
IsAscending [] = Unit {0}
IsAscending (p ∷ []) = Unit {0}
IsAscending (p ∷ q ∷ qs) = ParamLe p q × IsAscending (q ∷ qs)

-- The port that a scheme has of itself.
abbrev pub IsStandardPort : Text → ℕ → Type 0
IsStandardPort scheme n = ((scheme ≡ lit "http") × (n ≡ 80)) ⊎ ((scheme ≡ lit "https") × (n ≡ 443))
