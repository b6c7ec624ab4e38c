-- ===== src/Examples/SabrRuns.antt =====
-- Runs of internal/sabr.
use type_type_downloader.Prelude.{
  List, [], arith, false, length, refl, true, ℕ, ◌++◌, ◌<◌, ◌^◌, ◌∷◌, ◌≡◌, ◌≤◌,
}
use type_type_downloader.Prelude.Int.{negsuc, pos, ◌+ℤ◌}
use type_type_downloader.Prelude.Result.{ok}
use type_type_downloader.Prelude.Text.{Str, lit}
use type_type_downloader.Sabr.{StreamTrack}
use type_type_downloader.Sabr.Progress.{
  IsRisingReporter, Reporter, ReporterStep, finishes_report, reports_sum, run_reporter,
  run_reporter-IsRisingReporter, sums_bytes,
}
use type_type_downloader.Sabr.Stream.{
  accept_frame, consume_download_stream, decode_frame_header, download_magic, find_track, selected,
}
use type_type_downloader.Sabr.Stream.Codec.{
  Frame, IsFrame, decode-encode_header, encode_header, header_of,
}
use type_type_downloader.Sabr.Stream.Frames.{ends}
use type_type_downloader.Sabr.Stream.Outcome.{AllComplete, play-AllGrow}
use type_type_downloader.Sabr.Stream.Play.{IsBody, encode_body, play, play_frame}
use type_type_downloader.Sabr.Stream.Refines.{consume_download_stream-play}
use type_type_downloader.Sabr.Stream.Tracks.{AllGrow}

abbrev track_of : Str → ℕ → StreamTrack
track_of kind itag = record {
  kind = kind;
  itag = pos itag;
  path = lit "t.part";
  output = record { written = []; room = 100 };
  next_sequence = pos 0;
  initialized = false;
  media_written = false;
}

abbrev tracks : List StreamTrack
tracks = track_of (lit "video") 137 ∷ track_of (lit "audio") 140 ∷ []

abbrev frame : ℕ → ℕ → ℕ → List ℕ → Frame
frame kind itag sequence payload = record {
  kind = kind;
  itag = pos itag;
  sequence = pos sequence;
  payload = payload;
}

-- The two tracks take turns; the video starts at its fifth segment.
abbrev frames : List Frame
frames =
    frame 1 137 0 (1 ∷ [])
    ∷ frame 2 137 5 (2 ∷ 3 ∷ [])
    ∷ frame 1 140 0 (7 ∷ [])
    ∷ frame 2 140 1 (8 ∷ [])
    ∷ frame 2 137 6 (4 ∷ [])
    ∷ []

frame-IsFrame :
    (kind itag sequence : ℕ) (payload : List ℕ)
    → itag < 2 ^ 31
    → sequence < 2 ^ 31
    → length payload ≤ 100
    → IsFrame (frame kind itag sequence payload)
frame-IsFrame kind itag sequence payload i s l = record {
  itag = i;
  sequence = s;
  fits = omega arith;
}

frames-IsBody : IsBody frames
frames-IsBody = (
  frame-IsFrame 1 137 0 (1 ∷ []) (omega arith) (omega arith) (omega arith),
  refl,
  (
    frame-IsFrame 2 137 5 (2 ∷ 3 ∷ []) (omega arith) (omega arith) (omega arith),
    refl,
    (
      frame-IsFrame 1 140 0 (7 ∷ []) (omega arith) (omega arith) (omega arith),
      refl,
      (
        frame-IsFrame 2 140 1 (8 ∷ []) (omega arith) (omega arith) (omega arith),
        refl,
        (frame-IsFrame 2 137 6 (4 ∷ []) (omega arith) (omega arith) (omega arith), refl, tt),
      ),
    ),
  ),
)

abbrev played : List StreamTrack
played =
    record (track_of (lit "video") 137) {
      output = record { written = 1 ∷ 2 ∷ 3 ∷ 4 ∷ []; room = 96 };
      next_sequence = pos 7;
      initialized = true;
      media_written = true;
    }
    ∷ record (track_of (lit "audio") 140) {
      output = record { written = 7 ∷ 8 ∷ []; room = 98 };
      next_sequence = pos 2;
      initialized = true;
      media_written = true;
    }
    ∷ []

play_result : play true tracks 0 frames ≡ (6, ok played)
unfolding play play_frame accept_frame find_track selected ◌+ℤ◌
play_result = refl

consume_example :
    consume_download_stream (ends (download_magic ++ encode_body frames)) tracks true
    ≡ play true tracks 0 frames
consume_example =
    consume_download_stream-play frames tracks true frames-IsBody (omega arith, (omega arith, tt))

play_example : AllGrow true frames tracks played × AllComplete played
play_example = play-AllGrow true frames tracks 0 6 played ((refl, tt), (tt, tt)) play_result

decode_example :
    decode_frame_header (encode_header (frame 2 137 5 (2 ∷ 3 ∷ [])))
    ≡ ok (header_of (frame 2 137 5 (2 ∷ 3 ∷ [])))
decode_example =
    decode-encode_header (frame 2 137 5 (2 ∷ 3 ∷ []))
      (frame-IsFrame 2 137 5 (2 ∷ 3 ∷ []) (omega arith) (omega arith) (omega arith))

abbrev reporter : Reporter
reporter = record {
  has_progress = true;
  downloaded = pos 0;
  reported = pos 0;
  last = 0;
  reports = [];
}

-- A part adds and rolls back, and the sum that another has seen is reported late.
abbrev reporter_steps : List ReporterStep
reporter_steps =
    sums_bytes (pos 50)
    ∷ reports_sum (pos 50) 300_000_000
    ∷ sums_bytes (negsuc 49)
    ∷ reports_sum (pos 0) 600_000_000
    ∷ sums_bytes (pos 80)
    ∷ finishes_report
    ∷ []

reporter_example : IsRisingReporter (run_reporter reporter reporter_steps)
reporter_example = run_reporter-IsRisingReporter reporter reporter_steps tt

other_part : ¬ (◌≡◌ {A = ℕ} 3 112)
other_part e = omega (arith, e)
