-- ===== src/Pipeline/Filter/Acceptance.antt =====
-- Which URLs the default filter of src/crawler/url_filter.py lets through.
use web_crawler.Prelude.{
  ◌≡◌, ◌≢◌, ◌↔◌, ◌⊎◌, inl, inr, refl, ap, ◌∙◌, sym, Bool, true, false, not, Option, none, some,
  List, [], ◌∷◌, ◌++◌, Text, text_eq_iff, arith, if◌then◌else◌, All, Bool-cases, subst,
}
use web_crawler.Types.{Result, ok, err}
use web_crawler.Config.{is_http}
use web_crawler.Store.Queries.{exists}
use web_crawler.Pipeline.Build.{default_config, build}
use web_crawler.Pipeline.Filter
use web_crawler.Pipeline.Filter.{
  FilterContext, FilterStep, domain_match, filter_steps, step_name, is_host, is_within, Search,
  search_any, execute_step, accepted, negated, run_steps, execute,
}

build_default : build step_name filter_steps [] ≡ filter_steps
unfolding build
build_default = refl

is_host_iff :
    (host : Option Text) (domain : Text) → (is_host host domain ≡ true) ↔ (host ≡ some domain)
is_host_iff none domain = (λ h. absurd (cc), λ h. absurd (cc))
is_host_iff (some h) domain = ground (arith, text_eq_iff h domain)

module _ (search : Search) where
  accepts-step :
      (r : Result Bool) (onward : Bool)
      → ((if accepted r then onward else false) ≡ true) ↔ ((r ≡ ok true) × (onward ≡ true))
  accepts-step (err e) onward = (λ h. absurd (cc), λ h. absurd (cc))
  accepts-step (ok false) onward = (λ h. absurd (cc), λ h. absurd (cc))
  accepts-step (ok true) onward = (λ h. (refl, h), λ h. h.1)

  -- The filter passes a URL exactly when each of its steps returns True: a step that returns False
  -- or raises rejects it.
  pub run_steps_iff :
      (steps : List FilterStep) (ctx : FilterContext)
      → (run_steps search steps ctx ≡ true) ↔ All (λ s. execute_step search s ctx ≡ ok true) steps
  unfolding run_steps
  run_steps_iff [] ctx = (λ h. tt, λ h. refl)
  run_steps_iff (s ∷ rest) ctx =
      let here = accepts-step (execute_step search s ctx) (run_steps search rest ctx) in
      let there = run_steps_iff rest ctx in
      (λ h. ((here.0 h).0, there.0 (here.0 h).1), λ h. here.1 (h.0, there.1 h.1))

  -- No pattern matches, and none raises.
  abbrev pub NoneMatches : List Text → Text → Type 0
  NoneMatches ps url = All (λ p. search p url ≡ ok false) ps

  -- The first pattern that does not miss matches.
  abbrev pub SomeMatches : List Text → Text → Type 0
  SomeMatches [] url = ⊥
  SomeMatches (p ∷ ps) url =
      (search p url ≡ ok true) ⊎ ((search p url ≡ ok false) × SomeMatches ps url)

  search_any-false :
      (ps : List Text) (url : Text) → (search_any search ps url ≡ ok false) ↔ NoneMatches ps url
  unfolding search_any
  search_any-false [] url = (λ h. tt, λ h. refl)
  search_any-false (p ∷ ps) url = (
    λ h. ground (arith, (search_any-false ps url).0),
    λ h. ground (arith, (search_any-false ps url).1),
  )

  search_any-true :
      (ps : List Text) (url : Text) → (search_any search ps url ≡ ok true) ↔ SomeMatches ps url
  unfolding search_any
  search_any-true [] url = (λ h. absurd (cc), λ h. absurd h)
  search_any-true (p ∷ ps) url = (
    λ h. ground (arith, (search_any-true ps url).0),
    λ h. ground (arith, (search_any-true ps url).1),
  )

  negated-true : (r : Result Bool) → (negated r ≡ ok true) ↔ (r ≡ ok false)
  negated-true (ok true) = (λ h. absurd (cc), λ h. absurd (cc))
  negated-true (ok false) = (λ h. refl, λ h. refl)
  negated-true (err e) = (λ h. absurd (cc), λ h. absurd (cc))

  -- What the default filter asks of a URL.
  pub record IsWanted (ctx : FilterContext) : Type 0 where
    pub http : is_http ctx.parsed.scheme ≡ true
    pub domain : ctx.parsed.hostname ≡ some ctx.seed_domain
    pub depth : is_within ctx.max_depth ctx.depth ≡ true
    pub excluded : NoneMatches ctx.exclude_patterns ctx.url
    pub included : (ctx.include_patterns ≡ []) ⊎ SomeMatches ctx.include_patterns ctx.url
    pub new : exists ctx.url ctx.store ≡ false

  included_iff :
      (ps : List Text) (url : Text)
      → (Filter.included search ps url ≡ ok true) ↔ ((ps ≡ []) ⊎ SomeMatches ps url)
  unfolding Filter.included
  included_iff [] url = (λ h. inl refl, λ h. refl)
  included_iff (p ∷ ps) url = (λ h. inr ((search_any-true (p ∷ ps) url).0 h), matches)
    where
      matches : (p ∷ ps ≡ []) ⊎ SomeMatches (p ∷ ps) url → search_any search (p ∷ ps) url ≡ ok true
      matches (inl e) = absurd (cc)
      matches (inr m) = (search_any-true (p ∷ ps) url).1 m

  ok-true : (b : Bool) → ok b ≡ ok true → b ≡ true
  ok-true b h = ground arith

  -- The default filter passes a URL exactly when its scheme is http or https, its host is the seed
  -- domain, its depth is within the limit, no exclude pattern matches or raises, some include
  -- pattern matches before any raises (where there are any), and the store does not have it yet.
  pub execute_iff :
      (ctx : FilterContext) → (execute search default_config ctx ≡ true) ↔ IsWanted ctx
  unfolding execute
  execute_iff ctx = (wanted, passes)
    where
      all :
          (run_steps search (build step_name filter_steps []) ctx ≡ true)
          ↔ All (λ s. execute_step search s ctx ≡ ok true) filter_steps
      all =
          let steps = run_steps_iff filter_steps ctx in
          let same = ap (λ ss. run_steps search ss ctx) build_default in
          (λ h. steps.0 (sym same ∙ h), λ h. same ∙ steps.1 h)

      wanted : run_steps search (build step_name filter_steps []) ctx ≡ true → IsWanted ctx
      wanted h =
          let steps = all.0 h in
          unfold execute_step in
          record {
            http = ok-true _ steps.0;
            domain = (is_host_iff _ _).0 (ok-true _ steps.1.0);
            depth = ok-true _ steps.1.1.0;
            excluded = (search_any-false _ _).0 ((negated-true _).0 steps.1.1.1.0);
            included = (included_iff _ _).0 steps.1.1.1.1.0;
            new = ground (arith, ok-true _ steps.1.1.1.1.1.0);
          }

      passes : IsWanted ctx → run_steps search (build step_name filter_steps []) ctx ≡ true
      passes w =
          unfold execute_step in
          all.1 (
            ap ok w.http,
            (
              ap ok ((is_host_iff _ _).1 w.domain),
              (
                ap ok w.depth,
                (
                  (negated-true _).1 ((search_any-false _ _).1 w.excluded),
                  ((included_iff _ _).1 w.included, (ap (λ b. ok (not b)) w.new, tt)),
                ),
              ),
            ),
          )

no_colon : (before after : Text) → All (λ c. c ≢ b':') (before ++ b':' ∷ after) → ⊥
no_colon [] after h = h.0 refl
no_colon (c ∷ before) after h = no_colon before after h.1

-- Under a seed domain with a colon in it, as one with a port, the default filter rejects every URL
-- whose host has no colon in it.
pub port_rejects :
    (find : Search) (ctx : FilterContext) (host before after : Text)
    → ctx.parsed.hostname ≡ some host
    → All (λ c. c ≢ b':') host
    → ctx.seed_domain ≡ before ++ b':' ∷ after
    → execute find default_config ctx ≡ false
port_rejects find ctx host before after named plain domain =
    elim (Bool-cases (execute find default_config ctx)) [
      | inl passes ↦
          let same : host ≡ before ++ b':' ∷ after =
            cc (named, ((execute_iff find ctx).0 passes).domain, domain) in
          absurd (no_colon before after (subst (All (λ c. c ≢ b':')) same plain))
      | inr rejected ↦ rejected
    ]
