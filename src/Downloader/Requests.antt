-- ===== src/Downloader/Requests.antt =====
-- internal/downloader/media_headers.go: which range mode and headers a request has. `UrlParser` is
-- net/url: the parts of an address that url.Parse finds, and url.QueryUnescape; none is an error.
-- `lower` is unicode.ToLower.

use mathlib.Core.Option
use type_type_downloader.Prelude.{
  Bool, List, Option, [], false, if◌then◌else◌, none, not, some, true, ℕ, ◌&&◌, ◌++◌, ◌||◌, ◌∷◌,
}
use type_type_downloader.Prelude.Map.{Map, put}
use type_type_downloader.Prelude.Text.{
  Str, contains, cut_prefix, has_suffix, is_empty, lit, split_from, str_eq, to_lower,
}

pub record ParsedUrl : Type 0 where
  pub escaped_path : Str
  pub hostname : Str
  pub fragment : Str

pub record UrlParser : Type 0 where
  pub parse : Str → Option ParsedUrl
  pub query_unescape : Str → Option Str
  pub lower : ℕ → ℕ

unfoldable pub is_bilibili_host : Str → Bool
is_bilibili_host host =
    contains host (lit "bilibili")
    || contains host (lit "bilivideo")
    || has_suffix host (lit "hdslb.com")
    || contains host (lit "akamaized")

unfoldable pub is_nico_host : Str → Bool
is_nico_host host = has_suffix host (lit "nicovideo.jp")

trim_prefix : Str → Str → Str
trim_prefix s prefix = Option.get_or (cut_prefix s prefix) s

-- The loop of `nicoDomandBid`.
first_bid : List Str → Str
first_bid [] = []
first_bid (item ∷ rest) =
    let later = first_bid rest in
    elim (cut_prefix item (lit "cookie=")) [
      | none ↦ later
      | some cookie ↦ elim (cut_prefix cookie (lit "domand_bid=")) [ none ↦ later | some bid ↦ bid ]
    ]

module _ (urls : UrlParser) where
  unfoldable pub requires_header_range : Str → Bool
  unfolding trim_prefix
  requires_header_range raw_url = elim (urls.parse raw_url) [
    | none ↦ false
    | some parsed ↦
        let path = trim_prefix parsed.escaped_path (lit "/") in
        let host = to_lower urls.lower parsed.hostname in
        if str_eq path (lit "proxy") || str_eq path (lit "proxy/nicovideo")
        then true
        else is_bilibili_host host || is_nico_host host
  ]

  unfoldable pub effective_range_mode : Str → Str → Str
  effective_range_mode raw_url configured =
      if requires_header_range raw_url then lit "header" else configured

  unfoldable pub nico_domand_bid : Str → Str
  unfolding split_from first_bid
  nico_domand_bid fragment =
      first_bid (split_from 38 [] (Option.get_or (urls.query_unescape fragment) fragment))

  bilibili_headers : Str → Bool → Map Str → Map Str
  bilibili_headers host range_request headers =
      if is_bilibili_host host
      then (let basic =
            put (lit "Accept") (lit "*/*")
              (put (lit "Referer") (lit "https://www.bilibili.com") headers) in
          if range_request then put (lit "Connection") (lit "close") basic else basic)
      else headers

  nico_headers : Str → Str → Map Str → Map Str
  nico_headers host fragment headers =
      let bid = nico_domand_bid fragment in
      if is_nico_host host && not (is_empty bid)
      then put (lit "Cookie") (lit "domand_bid=" ++ bid) headers
      else headers

  unfoldable pub media_headers : Str → Bool → Map Str
  unfolding bilibili_headers nico_headers
  media_headers raw_url range_request =
      let headers = put (lit "User-Agent") desktop_user_agent [] in
      elim (urls.parse raw_url) [
        | none ↦ headers
        | some parsed ↦
            let host = to_lower urls.lower parsed.hostname in
            nico_headers host parsed.fragment (bilibili_headers host range_request headers)
      ]
    where
      desktop_user_agent : Str
      desktop_user_agent =
          lit "Mozilla/5.0 (X11; Linux x86_64) AppleWebKit/537.36 Chrome/122 Safari/537.36"
