-- ===== src/Pipeline/Filter/Fresh.antt =====
-- The filter of src/crawler/pipeline/filter_steps.py on a URL that the store does not have.
use web_crawler.Prelude.{◌≡◌, refl, ap, false, List, [], ◌∷◌, if◌then◌else◌}
use web_crawler.Store.{empty_store}
use web_crawler.Store.Queries.{exists}
use web_crawler.Pipeline.Filter.{
  Search, FilterContext, FilterStep, scheme_check, domain_match, depth_check, exclude_pattern,
  include_pattern, deduplication, execute_step, accepted, run_steps,
}

-- Only the step against duplicates looks at the store, so a URL that is not there passes as it does
-- with an empty store.
execute_step-new :
    (search : Search) (step : FilterStep) (ctx : FilterContext)
    → exists ctx.url ctx.store ≡ false
    → execute_step search step ctx ≡ execute_step search step (record ctx { store = empty_store })
unfolding execute_step exists
execute_step-new search scheme_check ctx e = refl
execute_step-new search domain_match ctx e = refl
execute_step-new search depth_check ctx e = refl
execute_step-new search exclude_pattern ctx e = refl
execute_step-new search include_pattern ctx e = refl
execute_step-new search deduplication ctx e = rw e refl

pub run_steps-new :
    (search : Search) (steps : List FilterStep) (ctx : FilterContext)
    → exists ctx.url ctx.store ≡ false
    → run_steps search steps ctx ≡ run_steps search steps (record ctx { store = empty_store })
unfolding run_steps
run_steps-new search [] ctx e = refl
run_steps-new search (step ∷ steps) ctx e = rw (execute_step-new search step ctx e) (
    ap
      (λ onward.
        if accepted (execute_step search step (record ctx { store = empty_store }))
        then onward
        else false)
      (run_steps-new search steps ctx e))
