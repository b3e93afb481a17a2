-- ===== src/Fetcher.antt =====
-- src/crawler/fetcher.py: `MockApiFetcher` and `HttpFetcher`. What httpx answers to a request, and
-- pydantic and json on what is read, are arguments.
pub mod Failures
pub mod Body
mod Tests
use web_crawler.Prelude.{
  ℕ, Bool, true, false, Option, none, some, List, [], ◌∷◌, ◌++◌, Text, lit, text_eq, length, take,
  ltb, if◌then◌else◌,
}
use web_crawler.Types.{FetchResponse, Error, ErrorKind, Result, ok, err}

-- A request as httpx is given it. `shared` tells whether the client is the fetcher's own or one that
-- is opened for the request; the timeout is in milliseconds, where it is given.
pub record Request : Type 0 where
  pub shared : Bool
  pub url : Text
  pub headers : List (Text × Text)
  pub timeout : Option ℕ

-- The exceptions of a request by the class that the handlers tell apart: `TimeoutException`,
-- `ConnectError`, `HTTPStatusError`, any other `HTTPError`, and what is no `HTTPError`. The text is
-- that of the exception.
pub data Failure : Type 0 where
  timed_out unconnected bad_status transport : Text → Failure
  other : Error → Failure

-- A response. `items` are the pairs of `headers.items()`, and `json` is what `json()` returns or
-- raises.
pub record Response (Value : Type 0) : Type 0 where
  pub status_code : ℕ
  pub items : List (Text × Text)
  pub content : List ℕ
  pub json : Result Value

pub data Outcome (Value : Type 0) : Type 0 where
  responded : Response Value → Outcome Value
  raised : Failure → Outcome Value

abbrev pub error : ErrorKind → Text → Error
error kind message = record { kind = kind; message = message }

-- `d[key] = value` on a dict.
abbrev pub set_item {ℓ} : {A : Type ℓ} → Text → A → List (Text × A) → List (Text × A)
set_item key value [] = (key, value) ∷ []
set_item key value ((k, v) ∷ rest) =
    if text_eq k key then (k, value) ∷ rest else (k, v) ∷ set_item key value rest

-- `d.get(key)`
abbrev pub get_item {ℓ} : {A : Type ℓ} → Text → List (Text × A) → Option A
get_item key [] = none
get_item key ((k, v) ∷ rest) = if text_eq k key then some v else get_item key rest

-- The attributes of an `HttpFetcher`.
pub record HttpFetcher : Type 0 where
  pub client : Bool
  pub timeout : ℕ
  pub user_agent : Text
  pub max_response_size : ℕ

abbrev pub default_user_agent : Text
default_user_agent =
    lit "Mozilla/5.0 (compatible; WebCrawler/1.0; +https://github.com/example/webcrawler)"

-- `user_agent or self._DEFAULT_USER_AGENT`
abbrev pub user_agent_or_default : Option Text → Text
user_agent_or_default none = default_user_agent
user_agent_or_default (some []) = default_user_agent
user_agent_or_default (some (c ∷ cs)) = c ∷ cs

abbrev pub new_http_fetcher : Bool → ℕ → Option Text → ℕ → HttpFetcher
new_http_fetcher client timeout user_agent max_response_size = record {
  client = client;
  timeout = timeout;
  user_agent = user_agent_or_default user_agent;
  max_response_size = max_response_size;
}

-- A client of its own has the timeout that a shared one is given with the request.
abbrev pub http_request : HttpFetcher → Text → Request
http_request f url = record {
  shared = f.client;
  url = url;
  headers = (lit "User-Agent", f.user_agent) ∷ (lit "Accept", lit "*/*") ∷ [];
  timeout = some f.timeout;
}

-- The loop that converts the headers.
abbrev pub copy_headers : List (Text × Text) → List (Text × Text) → List (Text × Text)
copy_headers [] headers = headers
copy_headers ((key, value) ∷ items) headers = copy_headers items (set_item key value headers)

abbrev pub read_body : ℕ → List ℕ → List ℕ
read_body max_response_size content =
    if ltb max_response_size (length content) then take max_response_size content else content

abbrev pub http_error : Text → Failure → Error
http_error url (timed_out e) =
    error ErrorKind.timeout (lit "Request timed out for " ++ url ++ lit ": " ++ e)
http_error url (unconnected e) =
    error ErrorKind.connection (lit "Connection failed for " ++ url ++ lit ": " ++ e)
http_error url (bad_status e) =
    error ErrorKind.transient (lit "HTTP error for " ++ url ++ lit ": " ++ e)
http_error url (transport e) =
    error ErrorKind.transient (lit "Transport error fetching " ++ url ++ lit ": " ++ e)
http_error url (other e) = e

abbrev pub http_response : {V : Type 0} → HttpFetcher → Response V → FetchResponse
http_response f r = record {
  status_code = r.status_code;
  headers = copy_headers r.items [];
  body = some (read_body f.max_response_size r.content);
}

abbrev pub http_result : {V : Type 0} → HttpFetcher → Text → Outcome V → Result FetchResponse
http_result f url (responded r) = ok (http_response f r)
http_result f url (raised e) = err (http_error url e)

-- `HttpFetcher.fetch`
unfoldable pub http_fetch :
    {V : Type 0} → HttpFetcher → (Request → Outcome V) → Text → Result FetchResponse
http_fetch f network url = http_result f url (network (http_request f url))

-- The body of an envelope: the encoded string, or the value that is not a string, where there is
-- one.
pub data Payload (Value : Type 0) : Type 0 where
  bytes : List ℕ → Payload Value
  plain : Option Value → Payload Value

-- What the fetcher of the mock API uses of urllib, json, the codec and pydantic: `quote(url, safe="")`,
-- a value as a dict or as a string, `encode("utf-8")`, and `FetchResponse` on the status, the headers,
-- which may be missing, and the body.
pub record Envelopes : Type 1 where
  pub Value : Type 0
  pub quote : Text → Text
  pub as_dict : Value → Option (List (Text × Value))
  pub as_str : Value → Option Text
  pub encode : Text → Result (List ℕ)
  pub validate : Value → Option Value → Payload Value → Result FetchResponse

abbrev pub is_malformed : ErrorKind → Bool
is_malformed ErrorKind.value = true
is_malformed ErrorKind.key = true
is_malformed _ = false

-- `except (ValueError, KeyError)`
abbrev pub caught : Error → Error
caught e =
    if is_malformed e.kind
    then error ErrorKind.transient (lit "malformed fetch response: " ++ e.message)
    else e

abbrev pub mock_error : Text → Failure → Error
mock_error url (timed_out e) =
    error ErrorKind.timeout (lit "Timeout reaching mock API for " ++ url ++ lit ": " ++ e)
mock_error url (unconnected e) =
    error ErrorKind.connection (lit "Connection to mock API failed for " ++ url ++ lit ": " ++ e)
mock_error url (bad_status e) =
    error ErrorKind.transient (lit "Transport error from mock API for " ++ url ++ lit ": " ++ e)
mock_error url (transport e) =
    error ErrorKind.transient (lit "Transport error from mock API for " ++ url ++ lit ": " ++ e)
mock_error url (other e) = caught e

-- `data.get` on what is no dict raises an `AttributeError`, and `data["statusCode"]` a `KeyError`.
abbrev pub no_dict : Error
no_dict = error ErrorKind.other (lit "object has no attribute 'get'")

abbrev pub no_status : Error
no_status = error ErrorKind.key (lit "'statusCode'")

module _ (envelopes : Envelopes) where
  open envelopes use {Value, quote, as_dict, as_str, encode, validate}

  abbrev pub mock_request : Bool → Text → Request
  mock_request client url = record {
    shared = client;
    url = lit "http://mock-api.mock.com/fetch?url=" ++ quote url;
    headers = [];
    timeout = none;
  }

  abbrev pub encoded : Result (List ℕ) → Result (Payload Value)
  encoded (ok b) = ok (bytes b)
  encoded (err e) = err e

  -- `if isinstance(body, str): body = body.encode("utf-8")`
  abbrev pub read_payload : Option Value → Result (Payload Value)
  read_payload none = ok (plain none)
  read_payload (some body) = elim (as_str body) [
    | none ↦ ok (plain (some body))
    | some text ↦ encoded (encode text)
  ]

  abbrev pub unwrap : List (Text × Value) → Result (Payload Value) → Result FetchResponse
  unwrap fields (err e) = err e
  unwrap fields (ok body) = elim (get_item (lit "statusCode") fields) [
    | none ↦ err no_status
    | some status ↦ validate status (get_item (lit "headers") fields) body
  ]

  abbrev pub read_json : Result Value → Result FetchResponse
  read_json (err e) = err e
  read_json (ok value) = elim (as_dict value) [
    | none ↦ err no_dict
    | some fields ↦ unwrap fields (read_payload (get_item (lit "body") fields))
  ]

  abbrev pub catch : Result FetchResponse → Result FetchResponse
  catch (ok r) = ok r
  catch (err e) = err (caught e)

  abbrev pub mock_result : Text → Outcome Value → Result FetchResponse
  mock_result url (responded r) = catch (read_json r.json)
  mock_result url (raised e) = err (mock_error url e)

  -- `MockApiFetcher.fetch`
  unfoldable pub mock_fetch : Bool → (Request → Outcome Value) → Text → Result FetchResponse
  mock_fetch client network url = mock_result url (network (mock_request client url))
