-- ===== src/Downloader/Ranged.antt =====
-- internal/downloader/range_request.go: the request of a chunk. `QueryUrls` is net/url: `set_range`
-- parses an address, sets the key `range` of its query and prints it again, `without_fragment` prints
-- it without its fragment; none is an error of url.Parse.
use mathlib.Core.Option
use type_type_downloader.Prelude.{Option, [], if◌then◌else◌, none, some, ◌++◌, ◌∷◌}
use type_type_downloader.Downloader.{Chunk}
use type_type_downloader.Downloader.Requests.{UrlParser, media_headers}
use type_type_downloader.Prelude.Decimal.{decimal}
use type_type_downloader.Prelude.Map.{Map, put}
use type_type_downloader.Prelude.Text.{Str, lit, str_eq}

pub record QueryUrls : Type 0 where
  pub set_range : Str → Str → Option Str
  pub without_fragment : Str → Option Str

pub record RangedRequest : Type 0 where
  pub url : Str
  pub headers : Map Str

-- fmt's %d-%d of a chunk.
abbrev pub range_text : Chunk → Str
range_text part = decimal part.start ++ b'-' ∷ decimal part.end

unfoldable pub ranged_url : QueryUrls → Str → Chunk → Str → Option Str
ranged_url query raw_url part mode =
    if str_eq mode (lit "header")
    then some raw_url
    else if str_eq mode (lit "query")
    then query.set_range raw_url (range_text part)
    else none

-- `applyMediaHeaders`: each header is set over what is there.
unfoldable pub set_headers : Map Str → Map Str → Map Str
set_headers [] headers = headers
set_headers ((name, value) ∷ rest) headers = set_headers rest (put name value headers)

unfoldable pub range_headers : UrlParser → Str → Chunk → Str → Map Str
unfolding set_headers
range_headers urls raw_url part mode =
    let identity = put (lit "Accept-Encoding") (lit "identity") [] in
    let ranged = str_eq mode (lit "header") in
    set_headers (media_headers urls raw_url ranged)
      (if ranged then put (lit "Range") (lit "bytes=" ++ range_text part) identity else identity)

abbrev pub then_strip : QueryUrls → Option Str → Option Str
then_strip query none = none
then_strip query (some url) = query.without_fragment url

unfoldable pub ranged_request : QueryUrls → UrlParser → Str → Chunk → Str → Option RangedRequest
unfolding ranged_url range_headers
ranged_request query urls raw_url part mode =
    Option.map (λ url. record { url = url; headers = range_headers urls raw_url part mode })
      (then_strip query (ranged_url query raw_url part mode))
