-- ===== src/Sabr/Parts.antt =====
-- internal/sabr/part_files.go and `downloadPartWithRetry` of multipart.go: the tracks of a part and
-- their files, and the attempts at a part. `created` says whether os.Create succeeds for a path, and
-- `room` what the disk takes.
use type_type_downloader.Prelude.{
  Bool, List, Option, [], false, if◌then◌else◌, ltb, none, not, some, suc, true, zero, ℕ, ◌++◌, ◌+◌,
  ◌||◌, ◌∷◌,
}
use type_type_downloader.Prelude.Decimal.{decimal}
use type_type_downloader.Prelude.Int.{ltb_ℤ, pos, ℤ}
use type_type_downloader.Prelude.Result.{Result, err, ok, ◌>>=◌}
use type_type_downloader.Prelude.Text.{Str, is_empty, lit, trim_space}
use type_type_downloader.Sabr.{SabrOptions, StreamTrack}
use type_type_downloader.Sabr.Progress.{Reporter, part_add, part_rollback}
use type_type_downloader.Sabr.Stream.{StreamError}

pub data PartError : Type 0 where
  missing_selection create_failed : Str → PartError
  part_failed : StreamError → PartError
  part_ended : PartError

unfoldable pub track_spec : Str → ℤ → Str → StreamTrack
track_spec kind itag path = record {
  kind = kind;
  itag = itag;
  path = path;
  output = record { written = []; room = 0 };
  next_sequence = pos 0;
  initialized = false;
  media_written = false;
}

unfoldable pub track_specs : SabrOptions → List StreamTrack
unfolding track_spec
track_specs options =
    let audio = track_spec (lit "audio") options.audio_itag options.audio_path in
    let video = track_spec (lit "video") options.video_itag options.video_path in
    if options.audio_only then audio ∷ [] else audio ∷ video ∷ []

-- %02d
unfoldable pub padded : ℕ → Str
padded n = if ltb n 10 then 48 ∷ decimal (pos n) else decimal (pos n)

unfoldable pub part_path : Str → ℕ → Str
unfolding padded
part_path target part = target ++ (lit ".download.part-" ++ padded part)

unfoldable pub open_part_tracks :
    (Str → Bool) → ℕ → ℕ → List StreamTrack → Result PartError (List StreamTrack)
unfolding part_path
open_part_tracks created room part [] = ok []
open_part_tracks created room part (spec ∷ rest) =
    let path = part_path spec.path part in
    let others = open_part_tracks created room part rest in
    if not (ltb_ℤ (pos 0) spec.itag) || is_empty (trim_space spec.path)
    then err (missing_selection spec.kind)
    else if created path
    then (do
      opened ← others
      ok (record spec { path = path; output = record { written = []; room = room } } ∷ opened))
    else err (create_failed spec.kind)

-- The bytes that an attempt adds to its counter, each with the time of the addition.
unfoldable pub part_adds : List (ℤ × ℕ) → ℤ × Reporter → ℤ × Reporter
part_adds [] p = p
part_adds ((bytes, now) ∷ rest) p = part_adds rest (part_add bytes now p)

-- An attempt at a part: what it adds, how it ends, when it rolls back, whether the context has ended
-- then, and the error of the wait after it.
pub record PartAttempt : Type 0 where
  pub adds : List (ℤ × ℕ)
  pub outcome : Option PartError
  pub rolled_back_at : ℕ
  pub context_ended : Bool
  pub wait_error : Option PartError

-- The loop of `downloadPartWithRetry`; `left` attempts follow this one.
unfoldable pub part_attempts : (ℕ → PartAttempt) → ℕ → ℕ → Reporter → Reporter × Option PartError
part_attempts world zero attempt r =
    let added = part_adds (world attempt).adds (pos 0, r) in
    elim (world attempt).outcome [
      | none ↦ (added.1, none)
      | some e ↦ ((part_rollback (world attempt).rolled_back_at added).1, some e)
    ]
part_attempts world (suc left) attempt r =
    let added = part_adds (world attempt).adds (pos 0, r) in
    let rolled = (part_rollback (world attempt).rolled_back_at added).1 in
    elim (world attempt).outcome [
      | none ↦ (added.1, none)
      | some e ↦ elim (world attempt).context_ended [
        | true ↦ (rolled, some e)
        | false ↦ elim (world attempt).wait_error [
          | some w ↦ (rolled, some w)
          | none ↦ part_attempts world left (attempt + 1) rolled
        ]
      ]
    ]

unfoldable pub download_part_with_retry : (ℕ → PartAttempt) → Reporter → Reporter × Option PartError
download_part_with_retry world r = part_attempts world 2 1 r
