-- ===== src/Pipeline/Filter/Choice.antt =====
-- The filter of src/crawler/pipeline under a configuration that chooses its steps.
use web_crawler.Prelude.{
  ◌≡◌, ◌↔◌, ◌⊎◌, refl, Bool, true, false, List, [], ◌∷◌, Text, All, All-mono, keep, inl, inr,
  Bool-cases,
}
use web_crawler.Types.{ok}
use web_crawler.Pipeline.Build.{PipelineConfig, is_enabled, build}
use web_crawler.Pipeline.Filter.{
  Search, FilterContext, FilterStep, step_name, filter_steps, execute_step, execute,
}
use web_crawler.Pipeline.Filter.Acceptance.{run_steps_iff}

-- What holds of the chosen elements.
All-keep :
    {A : Type 0}
    → (P : A → Type 0) (p : A → Bool) (xs : List A)
    → All P (keep p xs) ↔ All (λ x. (p x ≡ false) ⊎ P x) xs
All-keep P p [] = (λ h. tt, λ h. tt)
All-keep P p (x ∷ xs) = elim (Bool-cases (p x)) [
  | inl chosen ↦
      rw chosen (λ h. (inr h.0, (All-keep P p xs).0 h.1), λ h. (held h.0, (All-keep P p xs).1 h.1))
  | inr skipped ↦ rw skipped (λ h. (inl refl, (All-keep P p xs).0 h), λ h. (All-keep P p xs).1 h.1)
]
  where
    held : {B : Type 0} → (true ≡ false) ⊎ B → B
    held (inl e) = absurd (cc)
    held (inr b) = b

-- A step is disabled, or returns True.
abbrev pub IsPassed : Search → PipelineConfig → FilterContext → FilterStep → Type 0
IsPassed find config ctx s =
    (is_enabled config.filter (step_name s) ≡ false) ⊎ (execute_step find s ctx ≡ ok true)

-- Under any configuration the filter passes a URL exactly when each step of the registry that the
-- configuration does not disable returns True.
pub execute_chosen :
    (find : Search) (config : PipelineConfig) (ctx : FilterContext)
    → (execute find config ctx ≡ true) ↔ All (IsPassed find config ctx) filter_steps
unfolding execute build
execute_chosen find config ctx =
    let steps = run_steps_iff find (build step_name filter_steps config.filter) ctx in
    let chosen =
      All-keep (λ s. execute_step find s ctx ≡ ok true)
        (λ s. is_enabled config.filter (step_name s)) filter_steps in
    (λ h. chosen.0 (steps.0 h), λ h. steps.1 (chosen.1 h))

-- A configuration that runs no step which another does not run passes every URL that the other
-- passes.
pub execute_fewer :
    (find : Search) (fewer more : PipelineConfig) (ctx : FilterContext)
    → ((name : Text) → is_enabled fewer.filter name ≡ true → is_enabled more.filter name ≡ true)
    → execute find more ctx ≡ true
    → execute find fewer ctx ≡ true
execute_fewer find fewer more ctx within passes = (execute_chosen find fewer ctx).1 (
    All-mono (IsPassed find more ctx) (IsPassed find fewer ctx) filter_steps
      (λ s h. weaken s h (Bool-cases (is_enabled fewer.filter (step_name s))))
      ((execute_chosen find more ctx).0 passes))
  where
    weaken :
        (s : FilterStep)
        → IsPassed find more ctx s
        → (is_enabled fewer.filter (step_name s) ≡ true)
          ⊎ (is_enabled fewer.filter (step_name s) ≡ false)
        → IsPassed find fewer ctx s
    weaken s h (inr off) = inl off
    weaken s (inr passed) on = inr passed
    weaken s (inl off) (inl on) = let known = within (step_name s) on in absurd (cc)
