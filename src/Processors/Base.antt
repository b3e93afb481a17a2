-- ===== src/Processors/Base.antt =====
-- What the processors of src/crawler/processors share: the libraries that they call, and the parts
-- of `BaseProcessor` in src/crawler/content_dispatcher.py that they use.
use web_crawler.Prelude.{
  ℕ, Bool, Option, none, some, List, [], ◌∷◌, ◌++◌, Text, lit, text_eq, if◌then◌else◌,
}
use web_crawler.Prelude.Int.{ℤ}
use web_crawler.Types.{FetchResponse, ProcessorResult, Result}
use web_crawler.Store.{Action}

-- `attributes soup tag name` are the values of `tag[name]` for `soup.find_all(tag, name=True)`;
-- `image_size` is none where Pillow raises, and `read_pdf` where pypdf does, the title being empty
-- where the document has none.
pub record Media : Type 1 where
  pub is_space : ℕ → Bool
  pub sha256 : List ℕ → Text
  pub Soup : Type 0
  pub parse : List ℕ → Result Soup
  pub title : Soup → Option Text
  pub attributes : Soup → Text → Text → List Text
  pub urljoin : Text → Text → Result Text
  pub url_scheme : Text → Result Text
  pub image_size : List ℕ → Option (ℕ × ℕ)
  pub parse_int : Text → Result ℤ
  pub is_float : Text → Bool
  pub read_pdf : List ℕ → Option (ℕ × Text)
  pub write_file : Text → List ℕ → Result (Unit {0})

-- `response.body or b""`
abbrev pub body_of : FetchResponse → List ℕ
body_of response = elim response.body [ none ↦ [] | some body ↦ body ]

abbrev pub lift : {A : Type 0} → Result A → Action A
lift r s = (s, r)

abbrev pub or_default : Text → Option Text → Text
or_default t none = t
or_default t (some u) = u

unfoldable pub extension_of : List (Text × Text) → Text → Text
extension_of [] mime = lit "bin"
extension_of ((key, extension) ∷ rest) mime =
    if text_eq key mime then extension else extension_of rest mime

-- `f"{output_dir}/{folder}/{hash}.{extension}"`
abbrev pub path_of : Text → Text → Text → Text → Text
path_of output_dir folder hash extension =
    output_dir ++ (b'/' ∷ (folder ++ (b'/' ∷ (hash ++ (b'.' ∷ extension)))))

abbrev pub report : List Text → Text → Text → ProcessorResult
report urls hash path = record { discovered_urls = urls; content_hash = hash; file_path = path }
