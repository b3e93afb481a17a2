-- ===== src/Fetcher/Body.antt =====
-- What a fetch of src/crawler/fetcher.py brings: the body and the headers of a response.
use web_crawler.Prelude.{
  ℕ, ◌≤◌, ◌≡◌, ◌↔◌, refl, sym, ◌∙◌, ap, inl, inr, true, false, Option, none, some, List, [], ◌∷◌,
  ◌++◌, Text, text_eq, text_eq_iff, arith, length, take, length-take-le, ltb, leb, append_nil, Bool,
  Bool-cases, if◌then◌else◌,
}
use web_crawler.Types.{ok}
use web_crawler.Limiter.{header}
use web_crawler.Fetcher.{
  Request, Response, Outcome, responded, HttpFetcher, http_request, http_fetch, read_body,
  copy_headers, set_item,
}

length-take :
    (n : ℕ) (xs : List ℕ) → length (take n xs) ≡ (if leb n (length xs) then n else length xs)
length-take ℕ.zero xs = ground arith
length-take (ℕ.suc n) [] = ground arith
length-take (ℕ.suc n) (x ∷ xs) = ground (arith, length-take n xs)

take-prefix : (n : ℕ) (xs : List ℕ) → (rest : List ℕ) × (xs ≡ take n xs ++ rest)
take-prefix ℕ.zero xs = (xs, refl)
take-prefix (ℕ.suc n) [] = ([], refl)
take-prefix (ℕ.suc n) (x ∷ xs) = let (rest, e) = take-prefix n xs in (rest, ap (λ t. x ∷ t) e)

read_body_lem :
    (n : ℕ) (content : List ℕ)
    → (length (read_body n content) ≡ (if leb n (length content) then n else length content))
      × ((rest : List ℕ) × (content ≡ read_body n content ++ rest))
      × ((read_body n content ≡ content) ↔ (length content ≤ n))
read_body_lem n content = elim (Bool-cases (ltb n (length content))) [
  | inl over ↦ rw over (
    length-take n content,
    take-prefix n content,
    (
      λ e. let same = ap length e in let cut = length-take-le n content in omega arith,
      λ fits. absurd (ground arith),
    ),
  )
  | inr fits ↦
      rw fits (ground arith, ([], sym (append_nil content)), (λ e. ground arith, λ l. refl))
]

if_twice :
    {A : Type 0}
    → (b : Bool) (x y z : A) → (if b then x else z) ≡ (if b then x else if b then y else z)
if_twice true x y z = refl
if_twice false x y z = refl

other_name :
    (k key name : Text) → text_eq k name ≡ true → text_eq k key ≡ false → text_eq key name ≡ false
other_name k key name named differ = elim (Bool-cases (text_eq key name)) [
  | inr e ↦ e
  | inl e ↦
      let same =
        (text_eq_iff k key).1 ((text_eq_iff k name).0 named ∙ sym ((text_eq_iff key name).0 e)) in
      absurd (cc)
]

header-set_item :
    (name key value : Text) (headers : List (Text × Text))
    → header name (set_item key value headers)
      ≡ (if text_eq key name then some value else header name headers)
unfolding header
header-set_item name key value [] = refl
header-set_item name key value ((k, v) ∷ rest) =
    let ih = header-set_item name key value rest in
    elim (Bool-cases (text_eq k key)) [
      | inl same ↦ rw same (
          rw (ap (λ t. text_eq t name) ((text_eq_iff k key).0 same))
            (if_twice (text_eq key name) _ _ _))
      | inr differ ↦ rw differ (elim (Bool-cases (text_eq k name)) [
        | inl named ↦ rw named (rw (other_name k key name named differ) refl)
        | inr no_name ↦ rw no_name ih
      ])
    ]

-- The value of the last item with a name, or else `before`.
pub last_value : Text → List (Text × Text) → Option Text → Option Text
last_value name [] before = before
last_value name ((key, value) ∷ items) before =
    last_value name items (if text_eq key name then some value else before)

header-copy_headers :
    (name : Text) (items headers : List (Text × Text))
    → header name (copy_headers items headers) ≡ last_value name items (header name headers)
unfolding last_value
header-copy_headers name [] headers = refl
header-copy_headers name ((key, value) ∷ items) headers =
    header-copy_headers name items (set_item key value headers)
    ∙ ap (last_value name items) (header-set_item name key value headers)

-- A response of httpx becomes one with its status code, whose headers have for each name the value of
-- its last item, and whose body is the first bytes of the content, as many as the size limit or all where there are
-- fewer: all of the content exactly if that is no longer than the limit.
pub http_fetch_lem :
    {V : Type 0}
    → (f : HttpFetcher) (network : Request → Outcome V) (url : Text) (r : Response V)
    → network (http_request f url) ≡ responded r
    → (headers : List (Text × Text)) × (body : List ℕ) × (rest : List ℕ) × (http_fetch f network url
        ≡ ok (record { status_code = r.status_code; headers = headers; body = some body }))
      × ((name : Text) → header name headers ≡ last_value name r.items none)
      × (r.content ≡ body ++ rest)
      × (length body ≡ (
          if leb f.max_response_size (length r.content)
          then f.max_response_size
          else length r.content))
      × ((body ≡ r.content) ↔ (length r.content ≤ f.max_response_size))
unfolding http_fetch header
http_fetch_lem f network url r answers =
    let (short, (rest, prefix), whole) = read_body_lem f.max_response_size r.content in
    (
      copy_headers r.items [],
      read_body f.max_response_size r.content,
      rest,
      rw answers refl,
      λ name. header-copy_headers name r.items [],
      prefix,
      short,
      whole,
    )
