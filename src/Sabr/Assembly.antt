-- ===== src/Sabr/Assembly.antt =====
-- internal/sabr/part_files.go and `downloadAttempt` of download.go: the tracks are put together from
-- the files of their parts, renamed, and the partial files removed. The file system is the content by
-- path.
use type_type_downloader.Prelude.{
  Bool, List, Option, [], if◌then◌else◌, none, not, some, ℕ, ◌++◌, ◌∷◌,
}
use type_type_downloader.Prelude.Disk.{remove_file}
use type_type_downloader.Prelude.Map.{Map, delete, get, put}
use type_type_downloader.Prelude.Result.{Result, err, ok}
use type_type_downloader.Prelude.Text.{Str, lit}
use type_type_downloader.Sabr.{SabrOptions, StreamTrack}
use type_type_downloader.Sabr.Parts.{part_path, track_specs}
use type_type_downloader.Sabr.Workers.{count_up}

-- What the system answers for a path: `discards` is the os.Remove of `assembleTrack`, `removes` that of
-- `cleanupDownloadFiles`, whose errors are left alone.
pub record AssemblyDisk : Type 0 where
  pub creates : Str → Bool
  pub opens : Str → Bool
  pub copies : Str → Bool
  pub closes : Str → Bool
  pub renames : Str → Bool
  pub discards : Str → Bool
  pub removes : Str → Bool

pub data AssemblyError : Type 0 where
  create_track open_part assemble close_part close_track commit_track : Str → AssemblyError

abbrev pub Files : Type 0
Files = Map (List ℕ)

abbrev pub track_path : Str → Str
track_path target = target ++ lit ".download"

-- One round of the loop of `assembleTrack`.
unfoldable pub read_part : AssemblyDisk → Str → Str → Files → Result AssemblyError (List ℕ)
read_part disk kind path files = elim (get path files) [
  | none ↦ err (open_part kind)
  | some content ↦
      if not (disk.opens path)
      then err (open_part kind)
      else if not (disk.copies path)
      then err (assemble kind)
      else if disk.closes path
      then ok content
      else err (close_part kind)
]

unfoldable pub append_parts :
    AssemblyDisk → Str → Str → Files → List ℕ → List ℕ → Result AssemblyError (List ℕ)
unfolding read_part
append_parts disk kind target files written [] = ok written
append_parts disk kind target files written (part ∷ rest) =
    elim (read_part disk kind (part_path target part) files) [
      | err e ↦ err e
      | ok content ↦ append_parts disk kind target files (written ++ content) rest
    ]

unfoldable pub finish_track :
    AssemblyDisk → Str → Str → Files → Result AssemblyError (List ℕ) → Files × Option AssemblyError
unfolding remove_file
finish_track disk kind target files (err e) =
    (remove_file (disk.discards (track_path target)) (track_path target) files, some e)
finish_track disk kind target files (ok content) =
    if disk.closes (track_path target) then (put (track_path target) content files, none) else (
      remove_file (disk.discards (track_path target)) (track_path target) files,
      some (close_track kind),
    )

unfoldable pub assemble_track :
    AssemblyDisk → ℕ → StreamTrack → Files → Files × Option AssemblyError
unfolding append_parts finish_track
assemble_track disk parts track files =
    let created = put (track_path track.path) [] files in
    if disk.creates (track_path track.path)
    then finish_track disk track.kind track.path created
        (append_parts disk track.kind track.path created [] (count_up parts))
    else (files, some (create_track track.kind))

-- What follows a step that may have failed.
abbrev pub and_then :
    Files × Option AssemblyError
    → (Files → Files × Option AssemblyError)
    → Files × Option AssemblyError
and_then (files, some e) next = (files, some e)
and_then (files, none) next = next files

-- The two loops of `assembleDownload`.
unfoldable pub assemble_tracks :
    AssemblyDisk → ℕ → List StreamTrack → Files → Files × Option AssemblyError
unfolding assemble_track
assemble_tracks disk parts [] files = (files, none)
assemble_tracks disk parts (track ∷ rest) files =
    and_then (assemble_track disk parts track files) (assemble_tracks disk parts rest)

unfoldable pub rename_track :
    AssemblyDisk → StreamTrack → Files → Option (List ℕ) → Files × Option AssemblyError
rename_track disk track files none = (files, some (commit_track track.kind))
rename_track disk track files (some content) =
    if disk.renames (track_path track.path)
    then (put track.path content (delete (track_path track.path) files), none)
    else (files, some (commit_track track.kind))

unfoldable pub commit_tracks :
    AssemblyDisk → List StreamTrack → Files → Files × Option AssemblyError
unfolding rename_track
commit_tracks disk [] files = (files, none)
commit_tracks disk (track ∷ rest) files =
    and_then (rename_track disk track files (get (track_path track.path) files))
      (commit_tracks disk rest)

unfoldable pub assemble_download :
    AssemblyDisk → SabrOptions → ℕ → Files → Files × Option AssemblyError
unfolding assemble_tracks commit_tracks
assemble_download disk options parts files =
    and_then (assemble_tracks disk parts (track_specs options) files)
      (commit_tracks disk (track_specs options))

unfoldable pub remove_parts : AssemblyDisk → Str → List ℕ → Files → Files
unfolding remove_file
remove_parts disk target [] files = files
remove_parts disk target (part ∷ rest) files =
    let path = part_path target part in
    remove_parts disk target rest (remove_file (disk.removes path) path files)

unfoldable pub cleanup_tracks : AssemblyDisk → ℕ → List StreamTrack → Files → Files
unfolding remove_parts remove_file
cleanup_tracks disk parts [] files = files
cleanup_tracks disk parts (track ∷ rest) files =
    let path = track_path track.path in
    cleanup_tracks disk parts rest
      (remove_parts disk track.path (count_up parts) (remove_file (disk.removes path) path files))

unfoldable pub cleanup_download_files : AssemblyDisk → SabrOptions → ℕ → Files → Files
unfolding cleanup_tracks
cleanup_download_files disk options parts files =
    cleanup_tracks disk parts (track_specs options) files

pub data AttemptError (E : Type 0) : Type 0 where
  parts_failed : E → AttemptError E
  assembly_failed : AssemblyError → AttemptError E

abbrev pub assembly_error : {E : Type 0} → Option AssemblyError → Option (AttemptError E)
assembly_error none = none
assembly_error (some e) = some (assembly_failed e)

-- What follows `downloadParts`, with the files it has left and its error.
unfoldable pub after_parts :
    {E : Type 0}
    → AssemblyDisk
    → SabrOptions
    → ℕ
    → Files × Option E
    → Files × Option (AttemptError E)
unfolding assemble_download
after_parts disk options parts (files, some e) = (files, some (parts_failed e))
after_parts disk options parts (files, none) =
    let assembled = assemble_download disk options parts files in
    (assembled.0, assembly_error assembled.1)

unfoldable pub download_attempt :
    {E : Type 0}
    → AssemblyDisk
    → SabrOptions
    → ℕ
    → Files × Option E
    → Files × Option (AttemptError E)
unfolding after_parts cleanup_download_files
download_attempt disk options parts downloaded =
    let done = after_parts disk options parts downloaded in
    (cleanup_download_files disk options parts done.0, done.1)
