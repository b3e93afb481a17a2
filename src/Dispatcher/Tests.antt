-- ===== src/Dispatcher/Tests.antt =====
-- Content types that src/crawler/content_dispatcher.py meets.
use web_crawler.Prelude.{
  ℕ, ◌≡◌, refl, Bool, some, List, [], ◌∷◌, Text, lit, ◌==◌, starts_with, text_eq, lower,
}
use web_crawler.Dispatcher.{dispatch, register, mime_of}
use web_crawler.Dispatcher.Choice.{dispatch-register}

abbrev is_blank : ℕ → Bool
is_blank c = c == b' '

abbrev table : List (Text × ℕ)
table = (lit "text/html", 1) ∷ (lit "image/", 2) ∷ []

dispatch_html : dispatch is_blank table (lit " Text/HTML ; charset=utf-8") ≡ some 1
unfolding dispatch text_eq lit lower
dispatch_html = refl

dispatch_png : dispatch is_blank table (lit "image/png") ≡ some 2
unfolding dispatch text_eq lit lower starts_with
dispatch_png = refl

dispatch_registered :
    dispatch is_blank (register (lit "image/svg") 3 table) (lit "image/SVG; x") ≡ some 3
unfolding lit mime_of lower
dispatch_registered = dispatch-register is_blank (lit "image/svg") 3 table (lit "image/SVG; x") refl
