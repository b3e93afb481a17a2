-- ===== src/Dispatcher/Choice.antt =====
-- Which processor `dispatch` of src/crawler/content_dispatcher.py chooses.
use web_crawler.Prelude.{
  ℕ, ◌≡◌, refl, Bool, true, false, ◌↔◌, Option, none, some, List, [], ◌∷◌, Text, text_eq,
  text_eq_iff, text_eq_refl, starts_with, All, arith, Bool-cases, inl, inr,
}
use web_crawler.Dispatcher.{mime_of, register, exact, by_prefix, first_of, dispatch}

starts_with_refl : (t : Text) → starts_with t t ≡ true
unfolding starts_with
starts_with_refl [] = refl
starts_with_refl (c ∷ t) = ground (arith, starts_with_refl t)

starts_with_eq : (key mime : Text) → text_eq key mime ≡ true → starts_with mime key ≡ true
starts_with_eq key mime e = rw ((text_eq_iff key mime).0 e) (starts_with_refl mime)

module _ {ℓ} {P : Type ℓ} (is_space : ℕ → Bool) where
  -- The keys of a table that are no prefix of a type.
  abbrev pub Misses : Text → List (Text × P) → Type 0
  Misses mime = All (λ entry. starts_with mime entry.0 ≡ false)

  exact_of_Misses : (mime : Text) (ps : List (Text × P)) → Misses mime ps → exact mime ps ≡ none
  unfolding exact
  exact_of_Misses mime [] m = refl
  exact_of_Misses mime ((key, p) ∷ ps) m = elim (Bool-cases (text_eq key mime)) [
    | inl hit ↦ absurd (ground (arith, starts_with_eq key mime hit, m.0))
    | inr miss ↦ rw miss (exact_of_Misses mime ps m.1)
  ]

  by_prefix_iff : (mime : Text) (ps : List (Text × P)) → (by_prefix mime ps ≡ none) ↔ Misses mime ps
  unfolding by_prefix
  by_prefix_iff mime [] = (λ _. tt, λ _. refl)
  by_prefix_iff mime ((key, p) ∷ ps) =
      let rest = by_prefix_iff mime ps in
      elim (Bool-cases (starts_with mime key)) [
        | inl hit ↦ rw hit (λ e. cc, λ m. absurd (ground arith))
        | inr miss ↦ rw miss (λ e. (refl, rest.0 e), λ m. rest.1 m.1)
      ]

  -- A Content-Type has no processor exactly if no key of the table is a prefix of its type.
  pub dispatch_iff :
      (ps : List (Text × P)) (content_type : Text)
      → (dispatch is_space ps content_type ≡ none) ↔ Misses (mime_of is_space content_type) ps
  unfolding dispatch
  dispatch_iff ps content_type =
      let mime = mime_of is_space content_type in
      (
        λ e. (by_prefix_iff mime ps).0 (later (exact mime ps) (by_prefix mime ps) e),
        λ m. rw (exact_of_Misses mime ps m) ((by_prefix_iff mime ps).1 m),
      )
    where
      later : (a b : Option P) → first_of a b ≡ none → b ≡ none
      later none b e = e
      later (some p) b e = cc

  exact-register :
      (key : Text) (p : P) (ps : List (Text × P)) → exact key (register key p ps) ≡ some p
  unfolding exact register
  exact-register key p [] = rw (text_eq_refl key) refl
  exact-register key p ((k, q) ∷ ps) = elim (Bool-cases (text_eq k key)) [
    | inl hit ↦ rw hit (rw hit refl)
    | inr miss ↦ rw miss (rw miss (exact-register key p ps))
  ]

  -- A processor that is registered for exactly the type of a response is the one that handles it,
  -- whatever the rest of the table is.
  pub dispatch-register :
      (key : Text) (p : P) (ps : List (Text × P)) (content_type : Text)
      → mime_of is_space content_type ≡ key
      → dispatch is_space (register key p ps) content_type ≡ some p
  unfolding dispatch
  dispatch-register key p ps content_type e = rw (e, exact-register key p ps)
