-- ===== src/Store/Attempts.antt =====
-- How often src/crawler/metadata_store.py hands out a URL whose leases expire.
use web_crawler.Prelude.{
  ℕ, zero, suc, ◌+◌, ◌≡◌, refl, ◌∙◌, ap, none, List, [], ◌∷◌, Text, arith, length, text_eq_refl,
  le→leb,
}
use web_crawler.Prelude.Int.{pos}
use web_crawler.Store.{Store, empty_store, update}
use web_crawler.Store.Frontier.{
  new_record, acquire_lease_batch, expire_leases, lease_each, candidates, union_all, order_by,
  insert,
}
use web_crawler.Store.Lifecycle.{Call, acquires, expires, step, run}

-- The number of leases that the calls of a history hand out.
abbrev pub handed_out : Store → Call → ℕ
handed_out s (acquires draw now size ttl) = length (acquire_lease_batch draw now size ttl s).1
handed_out s _ = 0

pub leases : Store → List Call → ℕ
leases s [] = 0
leases s (c ∷ cs) = handed_out s c + leases (step s c) cs

-- Leases that are taken and expire, one after the other, from the time `at` on.
pub lost_leases : (ℕ → Text) → ℕ → ℕ → ℕ → List Call
lost_leases draw ttl zero at = []
lost_leases draw ttl (suc n) at =
    acquires draw at (pos 1) ttl ∷ expires (at + ttl) ∷ lost_leases draw ttl n (at + ttl)

-- A store with the row of one URL that has just been discovered.
abbrev pub newly_discovered : ℕ → Text → Text → ℕ → ℕ → Store
newly_discovered now key url depth redirects = record empty_store {
  records = new_record now key url depth none redirects ∷ [];
}

module _ (draw : ℕ → Text) (ttl began : ℕ) (key url : Text) (depth redirects : ℕ) where
  abbrev discovered : Store
  discovered = newly_discovered began key url depth redirects

  one_lease : (at : ℕ) → handed_out discovered (acquires draw at (pos 1) ttl) ≡ 1
  unfolding acquire_lease_batch candidates union_all order_by insert lease_each new_record
  one_lease at = rw (text_eq_refl key) refl

  lost_lease :
      (at : ℕ)
      → step (step discovered (acquires draw at (pos 1) ttl)) (expires (at + ttl)) ≡ discovered
  unfolding step acquire_lease_batch candidates union_all order_by insert lease_each new_record
      update expire_leases
  lost_lease at = rw (text_eq_refl key) (rw (le→leb (at + ttl) (at + ttl) (omega arith)) refl)

  -- The number of attempts at a URL has no bound: for every number there is a history in which a URL
  -- that has just been discovered is handed out that often, each time losing its lease by expiry, and
  -- in which it ends as it began, with no retry counted.
  pub attempts_unbounded :
      (n at : ℕ)
      → (leases (newly_discovered began key url depth redirects) (lost_leases draw ttl n at) ≡ n)
        × (run (newly_discovered began key url depth redirects) (lost_leases draw ttl n at)
            ≡ newly_discovered began key url depth redirects)
  unfolding leases lost_leases run
  attempts_unbounded zero at = (refl, refl)
  attempts_unbounded (suc n) at =
      let (count, same) = attempts_unbounded n (at + ttl) in
      (
        rw (one_lease at) (rw (lost_lease at) (omega (arith, count))),
        ap (λ t. run t (lost_leases draw ttl n (at + ttl))) (lost_lease at) ∙ same,
      )
