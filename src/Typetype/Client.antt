-- ===== src/Typetype/Client.antt =====
-- internal/typetype/client.go: the client of the streams API and the addresses that it makes.
-- `UrlLib` is net/url: none is an error of a parse. `lower` is unicode.ToLower.
use type_type_downloader.Prelude.{
  Bool, Option, [], false, if◌then◌else◌, map, none, not, some, ℕ, ◌&&◌, ◌++◌, ◌==◌, ◌||◌, ◌∷◌,
}
use type_type_downloader.Prelude.Int.{eq_ℤ, pos, ℤ}
use type_type_downloader.Prelude.Result.{Result, err, ok}
use type_type_downloader.Prelude.Text.{
  Str, contains, has_prefix, has_suffix, is_empty, lit, str_eq, to_lower, trim_left, trim_right,
  trim_space,
}
use type_type_downloader.Typetype.{AudioStreamItem, StreamResponse, VideoStreamItem}

-- `query_get` is Query().Get.
pub record Url : Type 0 where
  pub scheme : Str
  pub host : Str
  pub hostname : Str
  pub path : Str
  pub query_get : Str → Str

-- `resolve` is base.ResolveReference(ref), `print` is url.String().
pub record UrlLib : Type 0 where
  pub parse : Str → Option Url
  pub query_escape : Str → Str
  pub query_unescape : Str → Option Str
  pub resolve : Url → Url → Url
  pub print : Url → Str

pub record StreamsClient : Type 0 where
  pub base_url : Str

abbrev pub is_slash : ℕ → Bool
is_slash c = c == b'/'

unfoldable pub new_client : Str → StreamsClient
unfolding trim_right
new_client base_url = record { base_url = trim_right is_slash base_url }

-- url.URL.IsAbs
abbrev pub is_abs : Url → Bool
is_abs url = not (is_empty url.scheme)

pub data UrlError : Type 0 where
  no_url invalid_url bad_escape : Str → UrlError

module _ (urls : UrlLib) where
  abbrev pub has_host : Url → Bool
  has_host url = not (is_empty url.scheme || is_empty url.host)

  -- What stands under `v` in the address of a watch page, if it is an address with a host.
  unfoldable pub unwrap : Str → Str → Result UrlError Str
  unwrap raw_url inner = elim (urls.parse inner) [
    | none ↦ ok raw_url
    | some url ↦ if has_host url then ok inner else ok raw_url
  ]

  unfoldable pub unwrap_escaped : Str → Option Str → Result UrlError Str
  unfolding unwrap
  unwrap_escaped raw_url none = err (bad_escape raw_url)
  unwrap_escaped raw_url (some inner) = unwrap raw_url inner

  unfoldable pub normalize_watch_url : Str → Result UrlError Str
  unfolding unwrap_escaped
  normalize_watch_url raw_url = elim (urls.parse raw_url) [
    | none ↦ err (no_url raw_url)
    | some parsed ↦
        if is_empty parsed.scheme || is_empty parsed.host
        then err (invalid_url raw_url)
        else let wrapped = parsed.query_get (lit "v") in
          if str_eq parsed.path (lit "/watch") && not (is_empty wrapped)
          then unwrap_escaped raw_url (urls.query_unescape wrapped)
          else ok raw_url
  ]

  module _ (lower : ℕ → ℕ) where
    unfoldable pub is_youtube_host : Str → Bool
    is_youtube_host host =
        let host' = to_lower lower (trim_space host) in
        str_eq host' (lit "youtu.be")
        || str_eq host' (lit "youtube.com")
        || has_suffix host' (lit ".youtube.com")
        || str_eq host' (lit "youtube-nocookie.com")
        || has_suffix host' (lit ".youtube-nocookie.com")

    unfoldable pub endpoint_path : Option Url → Str
    unfolding is_youtube_host
    endpoint_path none = lit "/streams"
    endpoint_path (some parsed) =
        if is_youtube_host parsed.hostname then lit "/streams/youtube/sabr" else lit "/streams"

    unfoldable pub stream_endpoint : StreamsClient → Str → Str
    unfolding endpoint_path
    stream_endpoint c raw_url =
        c.base_url
        ++ (endpoint_path (urls.parse raw_url) ++ (lit "?url=" ++ urls.query_escape raw_url))

  unfoldable pub public_media_url : StreamsClient → Str → Str
  unfolding trim_left
  public_media_url c path =
      let trimmed = trim_space path in
      if has_prefix trimmed (lit "http://") || has_prefix trimmed (lit "https://")
      then trimmed
      else c.base_url ++ b'/' ∷ trim_left is_slash trimmed

  unfoldable pub same_origin : Url → Option Url → Bool
  same_origin parsed none = false
  same_origin parsed (some base) = str_eq parsed.scheme base.scheme && str_eq parsed.host base.host

  unfoldable pub is_api_url : StreamsClient → Str → Bool
  unfolding same_origin
  is_api_url c raw_url = elim (urls.parse raw_url) [
    | none ↦ false
    | some parsed ↦ if is_abs parsed then same_origin parsed (urls.parse c.base_url) else false
  ]

  unfoldable pub proxy_path : Option Url → Str
  proxy_path none = lit "/proxy"
  proxy_path (some parsed) =
      if contains parsed.host (lit "nicovideo.jp") then lit "/proxy/nicovideo" else lit "/proxy"

  unfoldable pub proxy_media_url : StreamsClient → Str → Str
  unfolding proxy_path is_api_url
  proxy_media_url c raw_url =
      let raw = trim_space raw_url in
      if is_empty raw || is_api_url c raw
      then raw
      else c.base_url ++ (proxy_path (urls.parse raw) ++ (lit "?url=" ++ urls.query_escape raw))

  unfoldable pub resolve_against : Option Url → Str → Url → Str
  resolve_against none raw parsed = raw
  resolve_against (some base) raw parsed = urls.print (urls.resolve base parsed)

  abbrev pub with_proxy : Str → Str
  with_proxy raw = if has_prefix raw (lit "nicovideo?") then lit "proxy/" ++ raw else raw

  unfoldable pub absolute_url : StreamsClient → Str → Str
  unfolding resolve_against trim_right
  absolute_url c raw = elim (urls.parse raw) [
    | none ↦ raw
    | some parsed ↦
        if is_abs parsed
        then raw
        else resolve_against (urls.parse (trim_right is_slash c.base_url ++ lit "/")) raw parsed
  ]

  -- The unexported `mediaURL`; the exported one is `public_media_url`.
  unfoldable pub media_url : StreamsClient → Str → Str
  unfolding absolute_url
  media_url c raw =
      let trimmed = trim_space raw in
      if is_empty trimmed then [] else absolute_url c (with_proxy trimmed)

  abbrev pub at_video : StreamsClient → VideoStreamItem → VideoStreamItem
  at_video c stream = record stream { url = media_url c stream.url }

  abbrev pub at_audio : StreamsClient → AudioStreamItem → AudioStreamItem
  at_audio c stream = record stream { url = media_url c stream.url }

  unfoldable pub normalize_stream_urls : StreamsClient → StreamResponse → StreamResponse
  unfolding media_url
  normalize_stream_urls c stream = record stream {
    video_streams = map (at_video c) stream.video_streams;
    video_only_streams = map (at_video c) stream.video_only_streams;
    audio_streams = map (at_audio c) stream.audio_streams;
    hls_url = media_url c stream.hls_url;
    dash_mpd_url = media_url c stream.dash_mpd_url;
  }

-- The answer of the streams API: `decoded` is what encoding/json makes of the body, `text` its first
-- 4096 bytes.
pub record StreamsReply : Type 0 where
  pub status_code : ℤ
  pub text : Str
  pub decoded : Option StreamResponse

pub data FetchError (E : Type 0) : Type 0 where
  bad_watch_url : UrlError → FetchError E
  not_sent : E → FetchError E
  bad_status : ℤ → Str → FetchError E
  bad_json : FetchError E

-- `send` is a GET with an Authorization header, which is left out where it is empty.
module _ {E : Type 0} (urls : UrlLib) (lower : ℕ → ℕ) (send : Str → Str → Result E StreamsReply)
    (c : StreamsClient) where
  unfoldable pub accept_reply : Result E StreamsReply → Result (FetchError E) StreamResponse
  unfolding normalize_stream_urls
  accept_reply (err e) = err (not_sent e)
  accept_reply (ok reply) =
      if eq_ℤ reply.status_code (pos 200)
      then elim reply.decoded [
        | none ↦ err bad_json
        | some stream ↦ ok (normalize_stream_urls urls c stream)
      ]
      else err (bad_status reply.status_code (trim_space reply.text))

  unfoldable pub fetch_stream : Str → Str → Result (FetchError E) StreamResponse
  unfolding accept_reply normalize_watch_url
  fetch_stream raw_url authorization = elim (normalize_watch_url urls raw_url) [
    | err e ↦ err (bad_watch_url e)
    | ok resolved ↦
        accept_reply (send (stream_endpoint urls lower c resolved) (trim_space authorization))
  ]
