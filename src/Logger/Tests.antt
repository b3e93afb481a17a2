-- ===== src/Logger/Tests.antt =====
-- Runs of the logger.
use web_crawler.Prelude.{[], ◌∷◌, lit, none, refl, text_eq}
use web_crawler.Logger.{new_logger, info}
use web_crawler.Logger.Progress as Progress
use web_crawler.Logger.Progress.{IsSpaced, IsSpacedBefore, progresses, works, logs, run-IsSpaced}

run-IsSpaced_example : IsSpaced 10000 (
    Progress.run (new_logger (lit "crawler") 20 10000) (
      progresses 20000 []
      ∷ works 21000 (lit "w") (lit "start") none none
      ∷ progresses 25000 []
      ∷ logs 26000 info (lit "crawl") []
      ∷ progresses 30000 []
      ∷ []))
unfolding lit text_eq
run-IsSpaced_example =
    run-IsSpaced (lit "crawler") 20 10000
      (progresses 20000 []
        ∷ works 21000 (lit "w") (lit "start") none none
        ∷ progresses 25000 []
        ∷ logs 26000 info (lit "crawl") []
        ∷ progresses 30000 []
        ∷ [])
      (tt, (tt, (tt, (refl, (tt, tt)))))
