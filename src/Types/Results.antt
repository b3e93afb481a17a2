-- ===== src/Types/Results.antt =====
-- Lemmas on the results of fallible code.
use web_crawler.Prelude.{◌≡◌, refl, ◌⊎◌, inl, inr}
use web_crawler.Types.{Error, Result, ok, err}

pub Result-cases :
    {A : Type 0} → (r : Result A) → ((a : A) × (r ≡ ok a)) ⊎ ((x : Error) × (r ≡ err x))
Result-cases (ok a) = inl (a, refl)
Result-cases (err x) = inr (x, refl)

pub is_ok : {A : Type 0} → {a b : A} → ok a ≡ ok b → a ≡ b
is_ok e = cc

pub err_not_ok : {A : Type 0} → {x : Error} {a : A} → err x ≡ ok a → ⊥
err_not_ok e = cc
