-- ===== src/Examples/AssemblyRuns.antt =====
-- A run of an attempt at a SABR download: two parts of an audio and of a video track.
use type_type_downloader.Prelude.{
  Option, [], false, if◌then◌else◌, none, refl, some, true, ℕ, ◌∷◌, ◌≡◌,
}
use type_type_downloader.Prelude.Decimal.{decimal}
use type_type_downloader.Prelude.Int.{pos}
use type_type_downloader.Prelude.Map.{delete, get, put}
use type_type_downloader.Prelude.Text.{diverge, lit, str_eq}
use type_type_downloader.Sabr.{SabrOptions}
use type_type_downloader.Sabr.Assembly.{
  AssemblyDisk, Files, after_parts, assemble_download, assembly_failed, cleanup_download_files,
  commit_track, download_attempt,
}
use type_type_downloader.Sabr.Committed.{Apart}
use type_type_downloader.Sabr.Outcome.{AttemptOutcome, download_attempt-Outcome}
use type_type_downloader.Sabr.Parts.{part_path, track_spec, track_specs}

abbrev pub willing : AssemblyDisk
willing = record {
  creates = λ path. true;
  opens = λ path. true;
  copies = λ path. true;
  closes = λ path. true;
  renames = λ path. true;
  discards = λ path. true;
  removes = λ path. true;
}

abbrev two_tracks : SabrOptions
two_tracks = record {
  manifest_url = [];
  authorization = [];
  video_itag = pos 137;
  audio_itag = pos 140;
  audio_track_id = [];
  audio_only = false;
  video_path = lit "v";
  audio_path = lit "a";
  expected_bytes = pos 0;
  parts = pos 2;
  idle_timeout = pos 0;
}

abbrev left_by_parts : Files
left_by_parts =
    (lit "v.download.part-00", 1 ∷ [])
    ∷ (lit "a.download.part-00", 7 ∷ [])
    ∷ (lit "a.download.part-01", 8 ∷ [])
    ∷ (lit "v.download.part-01", 2 ∷ 3 ∷ [])
    ∷ []

abbrev downloaded : Files × Option ℕ
downloaded = (left_by_parts, none)

-- The video cannot be renamed: the audio has been by then.
abbrev no_video : AssemblyDisk
no_video = record willing { renames = λ path. str_eq path (lit "a.download") }

two_tracks-Apart : Apart (track_specs two_tracks)
unfolding track_specs track_spec diverge
two_tracks-Apart = ((refl, tt), (tt, tt))

attempt_example :
    AttemptOutcome willing 2
      (track_specs two_tracks)
      downloaded.0
      (download_attempt willing two_tracks 2 downloaded)
attempt_example = download_attempt-Outcome willing 2 two_tracks downloaded two_tracks-Apart

assembles :
    download_attempt willing two_tracks 2 downloaded
    ≡ ((lit "a", 7 ∷ 8 ∷ []) ∷ (lit "v", 1 ∷ 2 ∷ 3 ∷ []) ∷ [], none)
unfolding download_attempt after_parts assemble_download cleanup_download_files get put delete
    str_eq track_specs part_path decimal
assembles = refl

half_committed :
    download_attempt no_video two_tracks 2 downloaded
    ≡ ((lit "a", 7 ∷ 8 ∷ []) ∷ [], some (assembly_failed (commit_track (lit "video"))))
unfolding download_attempt after_parts assemble_download cleanup_download_files get put delete
    str_eq track_specs part_path decimal
half_committed = refl

-- The system refuses to remove one of the parts.
abbrev keeps_part : AssemblyDisk
keeps_part = record willing {
  removes = λ path. if str_eq path (lit "a.download.part-01") then false else true;
}

leaves_part : download_attempt keeps_part two_tracks 2 downloaded ≡ (
  (lit "a.download.part-01", 8 ∷ []) ∷ (lit "a", 7 ∷ 8 ∷ []) ∷ (lit "v", 1 ∷ 2 ∷ 3 ∷ []) ∷ [],
  none,
)
unfolding download_attempt after_parts assemble_download cleanup_download_files get put delete
    str_eq track_specs part_path decimal
leaves_part = refl
