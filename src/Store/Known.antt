-- ===== src/Store/Known.antt =====
-- That a URL which a store of src/crawler/metadata_store.py knows is known for good.
use web_crawler.Prelude.{◌≡◌, true, List, [], ◌∷◌, Text, arith, any}
use web_crawler.Store.{UrlRecord, Store, has_key}
use web_crawler.Store.Queries.{exists}
use web_crawler.Store.Moves.{Evolves}
use web_crawler.Store.Lifecycle.{Call, step, step-Evolves}
use web_crawler.Store.Invariant.{Moves-key}

Evolves-known :
    (key : Text) (xs ys : List UrlRecord)
    → Evolves xs ys
    → any (has_key key) xs ≡ true
    → any (has_key key) ys ≡ true
Evolves-known key [] ys e h = absurd (cc)
Evolves-known key (x ∷ xs) [] e h = absurd e
Evolves-known key (x ∷ xs) (y ∷ ys) e h = ground (arith, Moves-key e.0, Evolves-known key xs ys e.1)

-- No call takes a URL out of the store.
pub step-known :
    (key : Text) (s : Store) (c : Call) → exists key s ≡ true → exists key (step s c) ≡ true
unfolding exists
step-known key s c h = Evolves-known key s.records (step s c).records (step-Evolves s c) h
