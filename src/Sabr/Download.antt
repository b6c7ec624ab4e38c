-- ===== src/Sabr/Download.antt =====
-- internal/sabr/download.go: the parts, the requests and the attempts of a whole download. `UrlQuery`
-- is net/url: none is an error of url.Parse.
use type_type_downloader.Prelude.{
  Bool, List, Option, [], false, if◌then◌else◌, length, none, not, some, true, ℕ, ◌++◌, ◌+◌, ◌∷◌,
}
use type_type_downloader.Prelude.Decimal.{decimal}
use type_type_downloader.Prelude.Int.{eq_ℤ, ltb_ℤ, pos, ℤ}
use type_type_downloader.Prelude.Map.{Map, put}
use type_type_downloader.Prelude.Result.{Result, err, ok}
use type_type_downloader.Prelude.Text.{
  Str, cut_prefix, is_empty, lit, split_from, str_eq, trim_space,
}
use type_type_downloader.Sabr.{SabrOptions}
use type_type_downloader.Sabr.Progress.{Reporter, begin_attempt, finish_report}
use type_type_downloader.Sabr.Stream.Tracks.{piece}

abbrev pub max_download_parts : ℤ
max_download_parts = pos 12

-- The steps of `downloadPartCount` by the size that is expected.
unfoldable pub audio_parts : ℤ → ℤ
audio_parts expected =
    if not (ltb_ℤ expected (pos 16777216))
    then pos 4
    else if not (ltb_ℤ expected (pos 4194304))
    then pos 2
    else pos 1

unfoldable pub video_parts : ℤ → ℤ
video_parts expected =
    if not (ltb_ℤ expected (pos 268435456))
    then pos 12
    else if not (ltb_ℤ expected (pos 134217728))
    then pos 6
    else if not (ltb_ℤ expected (pos 16777216))
    then pos 4
    else if not (ltb_ℤ expected (pos 4194304))
    then pos 2
    else pos 1

unfoldable pub download_part_count : SabrOptions → ℤ
unfolding audio_parts video_parts
download_part_count options =
    if ltb_ℤ (pos 0) options.parts
    then (if ltb_ℤ max_download_parts options.parts then max_download_parts else options.parts)
    else if options.audio_only
    then audio_parts options.expected_bytes
    else video_parts options.expected_bytes

-- A parsed address: its path and its query. `set_query` is Query().Set, and `print` puts both back and
-- is String().
pub record UrlQuery : Type 0 where
  pub parse : Str → Option (Str × Map Str)
  pub print : Str → Str → Map Str → Str

-- strings.Replace with a count of 1: what stands before the first occurrence goes before the new text.
unfoldable pub replace_first : Str → Str → Str → Str
replace_first [] old new = if is_empty old then new else []
replace_first (c ∷ s) old new =
    let rest = replace_first s old new in
    elim (cut_prefix (c ∷ s) old) [ none ↦ c ∷ rest | some after ↦ new ++ after ]

abbrev pub put_if : Bool → Str → Str → Map Str → Map Str
put_if true key value query = put key value query
put_if false key value query = query

unfoldable pub download_query : SabrOptions → ℤ → ℤ → Map Str → Map Str
download_query options part parts query = put (lit "parts") (decimal parts) (
    put (lit "part") (decimal part) (
      put_if options.audio_only (lit "audioOnly") (lit "true") (
        put_if (not (is_empty options.audio_track_id)) (lit "audioTrackId") options.audio_track_id (
          put_if (ltb_ℤ (pos 0) options.video_itag) (lit "videoItag") (decimal options.video_itag)
            (put (lit "audioItag") (decimal options.audio_itag) query)))))

unfoldable pub build_download_url : UrlQuery → SabrOptions → ℤ → ℤ → Option Str
unfolding replace_first download_query
build_download_url urls options part parts = elim (urls.parse options.manifest_url) [
  | none ↦ none
  | some (path, query) ↦ some (
      urls.print options.manifest_url
        (replace_first path (lit "/sabr/manifest/") (lit "/sabr/download/"))
        (download_query options part parts query))
]

-- The answer of the server, before its body is read.
pub record SabrReply : Type 0 where
  pub status_code : ℤ
  pub content_type : Str

pub data RequestError (E : Type 0) : Type 0 where
  request_failed : E → RequestError E
  bad_reply_status : ℤ → RequestError E
  bad_content_type : Str → RequestError E

abbrev pub first_piece : List Str → Str
first_piece [] = []
first_piece (piece ∷ rest) = piece

abbrev pub download_media_type : Str
download_media_type = lit "application/vnd.typetype.sabr-download"

-- The checks of `requestDownload`; `send` is the GET with an Authorization header, which is left out
-- where it is empty.
unfoldable pub request_download :
    {E : Type 0} → (Str → Str → Result E SabrReply) → Str → Str → Result (RequestError E) SabrReply
unfolding split_from
request_download send raw_url authorization = elim (send raw_url (trim_space authorization)) [
  | err e ↦ err (request_failed e)
  | ok reply ↦
      let media_type = trim_space (first_piece (split_from b';' [] reply.content_type)) in
      if not (eq_ℤ reply.status_code (pos 200))
      then err (bad_reply_status reply.status_code)
      else if str_eq media_type download_media_type
      then ok reply
      else err (bad_content_type media_type)
]

-- The numbers of parts of the attempts of `Download`.
unfoldable pub plans_of : SabrOptions → List ℤ
unfolding download_part_count
plans_of options =
    let count = download_part_count options in
    if ltb_ℤ (pos 1) count then count ∷ pos 1 ∷ [] else count ∷ []

pub data DownloadError (E : Type 0) : Type 0 where
  ended : E → DownloadError E
  gave_up : ℕ → E → DownloadError E

-- What happens in an attempt: when it begins, what it does to the reporter and its error, whether the
-- context has ended after it, and the error of the wait that follows.
pub record WholeAttempt (E : Type 0) : Type 0 where
  pub begun_at : ℕ
  pub does : ℤ → Reporter → Reporter × Option E
  pub context_error : Option E
  pub wait_error : Option E

abbrev pub wait_error_of : {E : Type 0} → Bool → WholeAttempt E → Option E
wait_error_of true attempt = attempt.wait_error
wait_error_of false attempt = none

-- What follows an attempt; `next` are the attempts after it, if there are `more`.
unfoldable pub after_attempt :
    {E : Type 0}
    → WholeAttempt E
    → Bool
    → (E → Reporter → Reporter × Option (DownloadError E))
    → Reporter × Option E
    → Reporter × Option (DownloadError E)
after_attempt attempt more next (r, none) = (finish_report r, none)
after_attempt attempt more next (r, some e) = elim attempt.context_error [
  | some cancelled ↦ (r, some (ended cancelled))
  | none ↦ elim (wait_error_of more attempt) [
    | some cancelled ↦ (r, some (ended cancelled))
    | none ↦ next e r
  ]
]

abbrev pub has_more : List ℤ → Bool
has_more [] = false
has_more (parts ∷ rest) = true

abbrev pub last_error : {E : Type 0} → ℕ → Option E → Option (DownloadError E)
last_error total none = none
last_error total (some e) = some (gave_up total e)

-- The loop over the plans, of which there are `total`.
unfoldable pub attempts_from :
    {E : Type 0}
    → (ℕ → WholeAttempt E)
    → ℕ
    → List ℤ
    → ℕ
    → Option E
    → Reporter
    → Reporter × Option (DownloadError E)
unfolding after_attempt
attempts_from world total [] attempt last r = (r, last_error total last)
attempts_from world total (parts ∷ rest) attempt last r =
    after_attempt (world attempt) (has_more rest)
      (λ e. attempts_from world total rest (attempt + 1) (some e))
      ((world attempt).does parts (begin_attempt (world attempt).begun_at r))

unfoldable pub download :
    {E : Type 0}
    → (ℕ → WholeAttempt E)
    → SabrOptions
    → Reporter
    → Reporter × Option (DownloadError E)
unfolding attempts_from plans_of
download world options r =
    let plans = plans_of options in attempts_from world (length plans) plans 0 none r
