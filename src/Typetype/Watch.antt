-- ===== src/Typetype/Watch.antt =====
-- What `NormalizeWatchURL` of internal/typetype/client.go accepts.
use type_type_downloader.Prelude.{
  Bool-cases, Option, Option-cases, inl, inr, none, not, refl, some, true, ◌&&◌, ◌||◌, ◌≡◌,
}
use type_type_downloader.Prelude.Result.{Result, err, ok}
use type_type_downloader.Prelude.Text.{Str, is_empty, lit, str_eq}
use type_type_downloader.Typetype.Client.{
  Url, UrlError, UrlLib, has_host, normalize_watch_url, unwrap, unwrap_escaped,
}

module _ (urls : UrlLib) where
  -- An address that url.Parse reads with a scheme and a host.
  pub HasHost : Str → Type 0
  HasHost raw = (url : Url) × (urls.parse raw ≡ some url) × (has_host urls url ≡ true)

  abbrev pub OkHasHost : Result UrlError Str → Type 0
  OkHasHost (err e) = Unit
  OkHasHost (ok url) = HasHost url

  unwrap_escaped-OkHasHost :
      (raw : Str) (inner : Option Str) → HasHost raw → OkHasHost (unwrap_escaped urls raw inner)
  unfolding unwrap_escaped unwrap
  unwrap_escaped-OkHasHost raw none h = tt
  unwrap_escaped-OkHasHost raw (some inner) h = elim (Option-cases (urls.parse inner)) [
    | inl e ↦ rw (e, unwrap) h
    | inr (url, e) ↦ elim (Bool-cases (has_host urls url)) [
      | inl y ↦ rw (e, unwrap, y) (unfold HasHost in (url, e, y))
      | inr n ↦ rw (e, unwrap, n) h
    ]
  ]

  -- An address that NormalizeWatchURL accepts is read by url.Parse with a scheme and a host, also
  -- when it was unwrapped from the address of a watch page.
  pub normalize_watch_url-HasHost : (raw : Str) → OkHasHost (normalize_watch_url urls raw)
  unfolding normalize_watch_url HasHost
  normalize_watch_url-HasHost raw = elim (Option-cases (urls.parse raw)) [
    | inl e ↦ rw (e, normalize_watch_url) tt
    | inr (url, e) ↦ elim (Bool-cases (is_empty url.scheme || is_empty url.host)) [
      | inl y ↦ rw (e, normalize_watch_url, y) tt
      | inr n ↦
          let here : HasHost raw = (url, e, rw n refl) in
          elim (Bool-cases
            (str_eq url.path (lit "/watch") && not (is_empty (url.query_get (lit "v"))))) [
              | inl y ↦
                  rw (e, normalize_watch_url, n, y)
                    (unwrap_escaped-OkHasHost raw (urls.query_unescape (url.query_get (lit "v")))
                      here)
              | inr m ↦ rw (e, normalize_watch_url, n, m) here
            ]
    ]
  ]
