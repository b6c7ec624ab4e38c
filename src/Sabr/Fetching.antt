-- ===== src/Sabr/Fetching.antt =====
-- `downloadPart` of internal/sabr/multipart.go: a part is requested, its tracks are opened, and its
-- stream is written to them. `closes` says whether the file of a path closes without an error.
use type_type_downloader.Prelude.{Bool, List, Option, [], if◌then◌else◌, none, some, ℕ, ◌==◌, ◌∷◌}
use type_type_downloader.Prelude.Int.{pos}
use type_type_downloader.Prelude.Result.{Result, err, ok}
use type_type_downloader.Prelude.Text.{Str}
use type_type_downloader.Sabr.{SabrOptions, StreamTrack}
use type_type_downloader.Sabr.Download.{
  RequestError, SabrReply, UrlQuery, build_download_url, request_download,
}
use type_type_downloader.Sabr.Parts.{PartError, open_part_tracks, track_specs}
use type_type_downloader.Sabr.Stream.{Reader, StreamError, consume_download_stream}

-- What the network and the system answer; `cause` is the cause of the context's end, where it has
-- ended by the time of an error.
pub record PartWorld (E : Type 0) : Type 0 where
  pub urls : UrlQuery
  pub send : Str → Str → Result E SabrReply
  pub body : Reader
  pub cause : Option E
  pub creates : Str → Bool
  pub room : ℕ
  pub closes : Str → Bool

pub data PartFailure (E : Type 0) : Type 0 where
  no_address : PartFailure E
  bad_request : RequestError E → PartFailure E
  caused_by : E → PartFailure E
  not_opened : PartError → PartFailure E
  bad_stream : StreamError → PartFailure E
  not_closed : Str → PartFailure E

abbrev pub or_cause : {E : Type 0} → Option E → PartFailure E → PartFailure E
or_cause none failure = failure
or_cause (some e) failure = caused_by e

-- The first error of `closeTracks`, which closes all of them.
unfoldable pub close_tracks : (Str → Bool) → List StreamTrack → Option Str
close_tracks closes [] = none
close_tracks closes (track ∷ rest) =
    let later = close_tracks closes rest in if closes track.path then later else some track.kind

-- The files that were opened, with what was written to them.
unfoldable pub written_files : List StreamTrack → List StreamTrack → List (Str × List ℕ)
written_files [] after = []
written_files (opened ∷ rest) [] = []
written_files (opened ∷ rest) (track ∷ after) =
    (opened.path, track.output.written) ∷ written_files rest after

unfoldable pub after_consume :
    {E : Type 0}
    → PartWorld E
    → List StreamTrack
    → ℕ × Result StreamError (List StreamTrack)
    → ℕ × Result (PartFailure E) (List (Str × List ℕ))
unfolding written_files close_tracks
after_consume w opened (counted, err e) = (counted, err (or_cause w.cause (bad_stream e)))
after_consume w opened (counted, ok tracks) = elim (close_tracks w.closes opened) [
  | some kind ↦ (counted, err (not_closed kind))
  | none ↦ (counted, ok (written_files opened tracks))
]

unfoldable pub after_open :
    {E : Type 0}
    → PartWorld E
    → ℕ
    → Result PartError (List StreamTrack)
    → ℕ × Result (PartFailure E) (List (Str × List ℕ))
unfolding after_consume
after_open w part (err e) = (0, err (not_opened e))
after_open w part (ok tracks) =
    after_consume w tracks (consume_download_stream w.body tracks (part == 0))

unfoldable pub after_reply :
    {E : Type 0}
    → PartWorld E
    → SabrOptions
    → ℕ
    → Result (RequestError E) SabrReply
    → ℕ × Result (PartFailure E) (List (Str × List ℕ))
unfolding after_open open_part_tracks
after_reply w options part (err e) = (0, err (or_cause w.cause (bad_request e)))
after_reply w options part (ok reply) =
    after_open w part (open_part_tracks w.creates w.room part (track_specs options))

-- The bytes that the counter was told of, and the files that were written, or the error.
unfoldable pub download_part :
    {E : Type 0}
    → PartWorld E
    → SabrOptions
    → ℕ
    → ℕ
    → ℕ × Result (PartFailure E) (List (Str × List ℕ))
unfolding after_reply build_download_url request_download
download_part w options part parts =
    elim (build_download_url w.urls options (pos part) (pos parts)) [
      | none ↦ (0, err no_address)
      | some address ↦
          after_reply w options part (request_download w.send address options.authorization)
    ]
