-- ===== src/Worker/Effects.antt =====
-- What src/crawler/worker.py does to the rows of `url_records`: new rows, and the completion of the
-- leased one.
use web_crawler.Prelude.{
  ◌≡◌, refl, ℕ, suc, ◌+◌, Bool, true, false, ◌||◌, Option, none, some, List, [], ◌∷◌, Text, lit,
  length, if◌then◌else◌, Bool-cases, inl, inr, arith,
}
use web_crawler.Prelude.Int.{ltz, lez, pos}
use web_crawler.Store.Queries.{get_redirect_count}
use web_crawler.Types.{FetchResponse, LeaseResult, ProcessorResult, Result, ok, err}
use web_crawler.Store.{UrlRecord, Store, Action, ◌>>=◌, pure, continue}
use web_crawler.Store.Frontier.{enqueue}
use web_crawler.Store.Transitions.{mark_completed}
use web_crawler.Store.Metadata.{
  or_empty, store_html_metadata, store_image_metadata, store_video_metadata, store_pdf_metadata,
}
use web_crawler.Limiter.{header}
use web_crawler.Dispatcher.{dispatch}
use web_crawler.Processors.{
  Media, Processor, html, image, video, pdf, process, process_html, process_image, process_video,
  process_pdf,
}
use web_crawler.Pipeline.Context.{UrlLib}
use web_crawler.Pipeline.Normalizer.{normalize}
use web_crawler.Pipeline.Filter.{Search}
use web_crawler.Worker.{
  Worker, declares_too_much, terminal_failed, passes, when_passed, enqueue_normalized,
  enqueue_discovered_urls, process_content, record_content, handle_body, handle_200,
  complete_redirect, follow, handle_redirect, by_status, do_process,
}

-- The filter lets a URL through at some time.
abbrev pub Admits : UrlLib → Search → Media → Worker → Text → ℕ → Type 0
Admits lib find media w key depth = (t : Store) × (passes lib find media w key depth t ≡ ok true)

-- A statement of the rows that an action leaves true, whether it raises or not.
abbrev pub Keeps : {A : Type 0} → (List UrlRecord → Type 0) → Action A → Type 0
Keeps Q m = (s : Store) → Q s.records → Q (m s).0.records

module _ (Q : List UrlRecord → Type 0) where
  Keeps-continue :
      {A B : Type 0}
      → (r : Result A) (t : Store) (f : A → Action B) → Q t.records
      → ((a : A) → Keeps Q (f a))
      → Q (continue r f t).0.records
  Keeps-continue (ok a) t f q k = k a t q
  Keeps-continue (err e) t f q k = q

  Keeps-if :
      {A : Type 0}
      → (b : Bool) (m n : Action A) (s : Store) → Q (m s).0.records
      → Q (n s).0.records
      → Q ((if b then m else n) s).0.records
  Keeps-if true m n s p q = p
  Keeps-if false m n s p q = q

  module _ (media : Media) (dir : Text) where
    Keeps-html :
        (response : FetchResponse) (lease : LeaseResult)
        → Keeps Q (process_html media dir response lease)
    unfolding process_html store_html_metadata
    Keeps-html response lease s q = ground arith

    Keeps-image :
        (response : FetchResponse) (lease : LeaseResult)
        → Keeps Q (process_image media dir response lease)
    unfolding process_image store_image_metadata
    Keeps-image response lease s q = ground arith

    Keeps-video :
        (response : FetchResponse) (lease : LeaseResult)
        → Keeps Q (process_video media dir response lease)
    unfolding process_video store_video_metadata
    Keeps-video response lease s q = ground arith

    Keeps-pdf :
        (response : FetchResponse) (lease : LeaseResult)
        → Keeps Q (process_pdf media dir response lease)
    unfolding process_pdf store_pdf_metadata
    Keeps-pdf response lease s q = ground arith

    Keeps-process :
        (p : Processor) (response : FetchResponse) (lease : LeaseResult)
        → Keeps Q (process media dir p response lease)
    unfolding process
    Keeps-process html = Keeps-html
    Keeps-process image = Keeps-image
    Keeps-process video = Keeps-video
    Keeps-process pdf = Keeps-pdf

  module _ (lib : UrlLib) (search : Search) (media : Media) (w : Worker)
      (enqueue-keeps : (now : ℕ) (key url : Text) (depth : ℕ) (parent : Option Text) (redirects : ℕ)
        → Admits lib search media w key depth
        → Keeps Q (enqueue now key url depth parent redirects)) where
    Keeps-enqueue_normalized :
        (key : Option Text) (now : ℕ) (url : Text) (depth : ℕ) (parent : Option Text)
        (redirects : ℕ)
        → Keeps Q (enqueue_normalized lib search media w key now url depth parent redirects)
    unfolding enqueue_normalized
    Keeps-enqueue_normalized none now url depth parent redirects s q = q
    Keeps-enqueue_normalized (some []) now url depth parent redirects s q = q
    Keeps-enqueue_normalized (some (c ∷ key)) now url depth parent redirects s q =
        go (passes lib search media w (c ∷ key) depth s) refl
      where
        go :
            (r : Result Bool)
            → passes lib search media w (c ∷ key) depth s ≡ r
            → Q
                (when_passed lib search media w r
                  (enqueue now (c ∷ key) url depth parent redirects)
                  s).0.records
        go (ok true) e = enqueue-keeps now (c ∷ key) url depth parent redirects (s, e) s q
        go (ok false) e = q
        go (err x) e = q

    Keeps-discovered :
        (clock : ℕ → ℕ) (i : ℕ) (urls : List Text) (depth : ℕ)
        → Keeps Q (enqueue_discovered_urls lib search media w clock i urls depth)
    unfolding enqueue_discovered_urls
    Keeps-discovered clock i [] depth s q = q
    Keeps-discovered clock i (url ∷ urls) depth s q =
        let first =
          enqueue_normalized lib search media w (normalize lib w.normalizer url) (clock i) url depth
            none 0 s in
        Keeps-continue first.1 first.0
          (λ _. enqueue_discovered_urls lib search media w clock (suc i) urls depth)
          (Keeps-enqueue_normalized (normalize lib w.normalizer url) (clock i) url depth none 0 s q)
          (λ _. Keeps-discovered clock (suc i) urls depth)

    Keeps-process_content :
        (response : FetchResponse) (lease : LeaseResult)
        → Keeps Q (process_content lib search media w response lease)
    unfolding process_content
    Keeps-process_content response lease s q = go (
        dispatch media.is_space w.processors
          (or_empty (header (lit "content-type") response.headers)))
      where
        go :
            (p : Option Processor)
            → Q
                ((elim p as (λ _. Action (Option ProcessorResult)) [
                  | none ↦ pure none
                  | some p ↦
                      process media w.output_dir p response lease >>= λ result. pure (some result)
                ])
                  s).0.records
        go none = q
        go (some p) =
            let first = process media w.output_dir p response lease s in
            Keeps-continue first.1 first.0 (λ result. pure (some result))
              (Keeps-process media w.output_dir p response lease s q) (λ result t k. k)

    module _ (lease : LeaseResult)
        (completed-keeps : (now : ℕ) (hash mime etag : Option Text) (s : Store)
          → Q s.records
          → Q
              (mark_completed now lease.normalized_url lease.lease_token hash mime etag
                s).0.records) where
      Keeps-record_content :
          (clock : ℕ → ℕ) (response : FetchResponse) (body : List ℕ)
          (result : Option ProcessorResult)
          → Keeps Q (record_content lib search media w clock response body lease result)
      Keeps-record_content clock response body none s q = q
      Keeps-record_content clock response body (some result) s q =
          let first =
            enqueue_discovered_urls lib search media w clock 0 result.discovered_urls
              (lease.depth + 1) s in
          Keeps-continue first.1 first.0 _
            (Keeps-discovered clock 0 result.discovered_urls (lease.depth + 1) s q)
            (λ _ t k. completed-keeps _ _ _ _ t k)

      Keeps-handle_200 :
          (clock : ℕ → ℕ) (response : FetchResponse)
          → Keeps Q (handle_200 lib search media w clock response lease)
      unfolding handle_200
      Keeps-handle_200 clock response s q = go response.body
        where
          go :
              (body : Option (List ℕ))
              → Q (handle_body lib search media w clock response lease body s).0.records
          go none = q
          go (some body) =
              let first = process_content lib search media w response lease s in
              Keeps-if
                (declares_too_much lib search media w
                    (header (lit "content-length") response.headers)
                  || ltz w.config.max_content_size (pos (length body)))
                (pure (terminal_failed lease (lit "content too large")))
                (process_content lib search media w response lease
                  >>= record_content lib search media w clock response body lease)
                s q
                (Keeps-continue first.1 first.0
                  (record_content lib search media w clock response body lease)
                  (Keeps-process_content response lease s q)
                  (Keeps-record_content clock response body))

      Keeps-handle_redirect :
          (clock : ℕ → ℕ) (response : FetchResponse)
          → Keeps Q (handle_redirect lib search media w clock response lease)
      unfolding handle_redirect
      Keeps-handle_redirect clock response s q = go (header (lit "location") response.headers)
        where
          go :
              (location : Option Text)
              → Q (follow lib search media w clock lease location s).0.records
          go none = q
          go (some []) = q
          go (some (c ∷ location)) =
              let redirects = get_redirect_count lease.normalized_url s in
              let next =
                enqueue_normalized lib search media w (normalize lib w.normalizer (c ∷ location))
                  (clock 0) (c ∷ location) lease.depth (some lease.url) (redirects + 1) in
              elim (Bool-cases (lez w.config.max_redirects (pos redirects))) [
                | inl many ↦ rw many q
                | inr few ↦ rw few (
                    Keeps-continue (next s).1 (next s).0
                      (λ _. complete_redirect lib search media w (clock 1) lease)
                      (Keeps-enqueue_normalized (normalize lib w.normalizer (c ∷ location))
                        (clock 0) (c ∷ location) lease.depth (some lease.url) (redirects + 1) s q)
                      (λ _ t k. completed-keeps _ _ _ _ t k))
              ]

      Keeps-by_status :
          (clock : ℕ → ℕ) (response : FetchResponse)
          → Keeps Q (by_status lib search media w clock response lease)
      unfolding by_status
      Keeps-by_status clock response s q =
          let page = Keeps-handle_200 clock response s q in
          let redirect = Keeps-handle_redirect clock response s q in ground arith

      pub Keeps-do_process :
          (clock : ℕ → ℕ) (outcome : Result FetchResponse)
          → Keeps Q (do_process lib search media w clock outcome lease)
      unfolding do_process
      Keeps-do_process clock (ok response) s q = Keeps-by_status clock response s q
      Keeps-do_process clock (err e) s q = q
