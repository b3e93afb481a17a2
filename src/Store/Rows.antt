-- ===== src/Store/Rows.antt =====
-- Lemmas on the statements of src/crawler/metadata_store.py: what an `UPDATE` does to the
-- rows, their keys and their number.
use web_crawler.Prelude.{
  ◌≡◌, refl, Bool, true, false, some, List, [], ◌∷◌, ◌++◌, Text, text_eq, text_eq_iff, All, count,
  any, length, arith, if◌then◌else◌, Bool-cases, inl, inr,
}
use web_crawler.Store.{UrlRecord, has_key, update, find_record}

-- The keys of the rows are distinct: `normalized_url` is the primary key.
abbrev pub HasDistinctKeys : List UrlRecord → Type 0
HasDistinctKeys [] = Unit {0}
HasDistinctKeys (r ∷ rs) = (any (has_key r.normalized_url) rs ≡ false) × HasDistinctKeys rs

-- A change of a row that leaves its key alone.
abbrev pub KeepsKey : (UrlRecord → UrlRecord) → Type 0
KeepsKey f = (r : UrlRecord) → (f r).normalized_url ≡ r.normalized_url

abbrev pub changed : (UrlRecord → Bool) → (UrlRecord → UrlRecord) → UrlRecord → UrlRecord
changed p f r = if p r then f r else r

pub All-update {κ} :
    (P : UrlRecord → Type κ) (p : UrlRecord → Bool) (f : UrlRecord → UrlRecord)
    → ((r : UrlRecord) → P r → p r ≡ true → P (f r))
    → (rows : List UrlRecord) → All P rows
    → All P (update p f rows)
unfolding update
All-update P p f step [] h = tt
All-update P p f step (r ∷ rs) h = elim (Bool-cases (p r)) [
  | inl e ↦ rw e (step r h.0 e, All-update P p f step rs h.1)
  | inr e ↦ rw e (h.0, All-update P p f step rs h.1)
]

pub length-update :
    (p : UrlRecord → Bool) (f : UrlRecord → UrlRecord) (rows : List UrlRecord)
    → length (update p f rows) ≡ length rows
unfolding update
length-update p f [] = refl
length-update p f (r ∷ rs) = omega (arith, length-update p f rs)

pub any-update :
    (key : Text) (p : UrlRecord → Bool) (f : UrlRecord → UrlRecord)
    → KeepsKey f
    → (rows : List UrlRecord) → any (has_key key) (update p f rows) ≡ any (has_key key) rows
unfolding update
any-update key p f keeps [] = refl
any-update key p f keeps (r ∷ rs) = ground (arith, keeps r, any-update key p f keeps rs)

pub HasDistinctKeys-update :
    (p : UrlRecord → Bool) (f : UrlRecord → UrlRecord)
    → KeepsKey f
    → (rows : List UrlRecord) → HasDistinctKeys rows
    → HasDistinctKeys (update p f rows)
unfolding update
HasDistinctKeys-update p f keeps [] h = tt
HasDistinctKeys-update p f keeps (r ∷ rs) h = (
  ground (
    arith,
    keeps r,
    any-update r.normalized_url p f keeps rs,
    any-update (f r).normalized_url p f keeps rs,
  ),
  HasDistinctKeys-update p f keeps rs h.1,
)

pub HasDistinctKeys-append :
    (rows : List UrlRecord) (r : UrlRecord)
    → any (has_key r.normalized_url) rows ≡ false
    → HasDistinctKeys rows
    → HasDistinctKeys (rows ++ r ∷ [])
HasDistinctKeys-append [] r new h = (refl, tt)
HasDistinctKeys-append (x ∷ xs) r new h =
    (fresh xs (ground arith) h.0, HasDistinctKeys-append xs r (ground arith) h.1)
  where
    fresh :
        (ys : List UrlRecord)
        → text_eq x.normalized_url r.normalized_url ≡ false
        → any (has_key x.normalized_url) ys ≡ false
        → any (has_key x.normalized_url) (ys ++ r ∷ []) ≡ false
    fresh [] e n = ground (
      arith,
      text_eq_iff x.normalized_url r.normalized_url,
      text_eq_iff r.normalized_url x.normalized_url,
    )
    fresh (y ∷ ys) e n = ground (arith, fresh ys e)

-- A row that is read back after an `UPDATE`.
pub find_record-update :
    (key : Text) (p : UrlRecord → Bool) (f : UrlRecord → UrlRecord)
    → KeepsKey f
    → (rows : List UrlRecord) (r : UrlRecord) → find_record key rows ≡ some r
    → find_record key (update p f rows) ≡ some (changed p f r)
unfolding update find_record
find_record-update key p f keeps [] r e = cc
find_record-update key p f keeps (x ∷ xs) r e =
    ground (arith, keeps x, find_record-update key p f keeps xs r)

pub find_record-append :
    (key : Text) (rows more : List UrlRecord) (r : UrlRecord)
    → find_record key rows ≡ some r
    → find_record key (rows ++ more) ≡ some r
unfolding find_record
find_record-append key [] more r e = cc
find_record-append key (x ∷ xs) more r e = ground (arith, find_record-append key xs more r)

-- A row that is found has the key, and satisfies what all rows satisfy.
pub find_record-key :
    (key : Text) (rows : List UrlRecord) (r : UrlRecord)
    → find_record key rows ≡ some r
    → r.normalized_url ≡ key
unfolding find_record
find_record-key key [] r e = cc
find_record-key key (x ∷ xs) r e =
    ground (arith, text_eq_iff x.normalized_url key, find_record-key key xs r)

-- An `UPDATE` that meets no row changes nothing.
pub update_none :
    (p : UrlRecord → Bool) (f : UrlRecord → UrlRecord) (rows : List UrlRecord)
    → count p rows ≡ 0
    → update p f rows ≡ rows
unfolding update
update_none p f [] e = refl
update_none p f (r ∷ rs) e = ground (arith, update_none p f rs)

-- With distinct keys a row is the only one that a condition on its key can meet.
pub count_of_absent :
    (key : Text) (p : UrlRecord → Bool)
    → ((r : UrlRecord) → p r ≡ true → has_key key r ≡ true)
    → (rows : List UrlRecord) → any (has_key key) rows ≡ false
    → count p rows ≡ 0
count_of_absent key p keyed [] e = refl
count_of_absent key p keyed (r ∷ rs) e = ground (arith, keyed r, count_of_absent key p keyed rs)

pub count_of_found :
    (key : Text) (p : UrlRecord → Bool)
    → ((r : UrlRecord) → p r ≡ true → has_key key r ≡ true)
    → (rows : List UrlRecord) (r : UrlRecord) → HasDistinctKeys rows
    → find_record key rows ≡ some r
    → count p rows ≡ (if p r then 1 else 0)
unfolding find_record
count_of_found key p keyed [] r d e = cc
count_of_found key p keyed (x ∷ xs) r d e = elim (Bool-cases (has_key key x)) [
  | inl hit ↦ ground (arith, text_eq_iff x.normalized_url key, count_of_absent key p keyed xs)
  | inr miss ↦ ground (arith, keyed x, count_of_found key p keyed xs r d.1)
]
