-- ===== src/Worker/KeySet.antt =====
-- The frontier of src/crawler/metadata_store.py as a set of URLs: the keys of the rows, without their
-- order and what else is in the rows.
use web_crawler.Prelude.{
  ◌≡◌, refl, sym, ◌∙◌, ap, Bool, true, List, [], ◌∷◌, ◌++◌, map, Text, text_eq, any, arith,
  if◌then◌else◌,
}
use mathlib.Core.Quot
use mathlib.Core.Quot.{Quot, Quot-set}
use web_crawler.Store.{UrlRecord, Store, has_key}
use web_crawler.Store.Queries.{exists}

abbrev pub has : Text → List Text → Bool
has key keys = any (λ k. text_eq k key) keys

abbrev pub SameKeys : List Text → List Text → Type 0
SameKeys xs ys = (key : Text) → has key xs ≡ has key ys

abbrev pub KeySet : Type 0
KeySet = Quot SameKeys

pub insert_key : Text → KeySet → KeySet
insert_key key =
    Quot.lift Quot-set (λ xs. Quot.mk (key ∷ xs))
      (λ xs ys h. Quot.sound (λ k. ap (λ b. if text_eq key k then true else b) (h k)))

pub insert_keys : List Text → KeySet → KeySet
insert_keys [] q = q
insert_keys (key ∷ keys) q = insert_key key (insert_keys keys q)

pub insert_keys-mk : (keys xs : List Text) → insert_keys keys (Quot.mk xs) ≡ Quot.mk (keys ++ xs)
unfolding insert_keys insert_key
insert_keys-mk [] xs = refl
insert_keys-mk (key ∷ keys) xs = ap (insert_key key) (insert_keys-mk keys xs)

pub insert_key_comm :
    (a b : Text) (q : KeySet) → insert_key a (insert_key b q) ≡ insert_key b (insert_key a q)
unfolding insert_key
insert_key_comm a b = Quot.ind (λ q. Quot-set _ _) (λ xs. Quot.sound (λ k. ground arith))

pub has-append :
    (key : Text) (xs ys : List Text)
    → has key (xs ++ ys) ≡ (if has key xs then true else has key ys)
has-append key [] ys = refl
has-append key (x ∷ xs) ys = ground (arith, has-append key xs ys)

pub insert_keys-same :
    (xs ys : List Text) (q : KeySet) → SameKeys xs ys → insert_keys xs q ≡ insert_keys ys q
insert_keys-same xs ys q same =
    Quot.ind {β = λ q. insert_keys xs q ≡ insert_keys ys q} (λ q. Quot-set _ _)
      (λ zs.
        insert_keys-mk xs zs
        ∙ Quot.sound (λ k.
          has-append k xs zs
          ∙ ap (λ b. if b then true else has k zs) (same k)
          ∙ sym (has-append k ys zs))
        ∙ sym (insert_keys-mk ys zs))
      q

-- The URLs that a store knows.
pub known : Store → KeySet
known s = Quot.mk (map (λ r. r.normalized_url) s.records)

pub has-records :
    (key : Text) (rows : List UrlRecord)
    → has key (map (λ r. r.normalized_url) rows) ≡ any (has_key key) rows
has-records key [] = refl
has-records key (r ∷ rows) = ap (λ b. if has_key key r then true else b) (has-records key rows)

-- A store that knows, beside those of another, the given keys.
pub known_grown :
    (s t : Store) (keys : List Text)
    → ((key : Text) → exists key t ≡ (if has key keys then true else exists key s))
    → known t ≡ insert_keys keys (known s)
unfolding known exists
known_grown s t keys h =
    Quot.sound (λ key.
      has-records key t.records
      ∙ h key
      ∙ ap (λ b. if has key keys then true else b) (sym (has-records key s.records))
      ∙ sym (has-append key keys (map (λ r. r.normalized_url) s.records)))
    ∙ sym (insert_keys-mk keys _)
