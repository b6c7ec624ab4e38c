-- ===== src/Sabr/Leftovers.antt =====
-- What `cleanupDownloadFiles` of internal/sabr/part_files.go removes, and what it keeps.
use type_type_downloader.Prelude.{
  Bool-cases, List, [], arith, inl, inr, ltb, none, refl, true, ℕ, ◌<◌, ◌==◌, ◌∙◌, ◌∷◌, ◌≡◌,
}
use type_type_downloader.Prelude.Disk.{
  remove_file, remove_file-gone, remove_file-none, remove_file-other,
}
use type_type_downloader.Prelude.Map.{get}
use type_type_downloader.Prelude.Text.{Str, diverge_comm, str_eq-longer}
use type_type_downloader.Sabr.{StreamTrack}
use type_type_downloader.Sabr.Assembly.{
  AssemblyDisk, Files, cleanup_tracks, remove_parts, track_path,
}
use type_type_downloader.Sabr.Committed.{Apart, Every, Every-pairs, Suffixed, diverge-Avoids}
use type_type_downloader.Sabr.Parts.{part_path}
use type_type_downloader.Sabr.Workers.{count_up, times, times-count_up}

module _ (disk : AssemblyDisk) where
  remove_parts-none :
      (target : Str) (ks : List ℕ) (files : Files) (j : Str)
      → get j files ≡ none
      → get j (remove_parts disk target ks files) ≡ none
  unfolding remove_parts
  remove_parts-none target [] files j h = h
  remove_parts-none target (k ∷ ks) files j h =
      let path = part_path target k in
      remove_parts-none target ks _ j (remove_file-none (disk.removes path) path files j h)

  remove_parts-gone :
      (target : Str) (ks : List ℕ) (files : Files) (k : ℕ)
      → 0 < times k ks
      → disk.removes (part_path target k) ≡ true
      → get (part_path target k) (remove_parts disk target ks files) ≡ none
  unfolding remove_parts
  remove_parts-gone target [] files k h r = absurd (omega arith)
  remove_parts-gone target (i ∷ ks) files k h r =
      let path = part_path target i in
      elim (Bool-cases (i == k)) [
        | inl y ↦
            let same : i ≡ k = ground arith in
            remove_parts-none target ks _ (part_path target k) (
              rw same
                (remove_file-gone (disk.removes (part_path target k)) (part_path target k) files r))
        | inr n ↦
            remove_parts-gone target ks (remove_file (disk.removes path) path files) k
              (ground (arith, h)) r
      ]

  remove_parts-keeps :
      (t : StreamTrack) (ks : List ℕ) (files : Files) (j : Str)
      → Suffixed j t
      → get j (remove_parts disk t.path ks files) ≡ get j files
  unfolding remove_parts part_path
  remove_parts-keeps t [] files j n = refl
  remove_parts-keeps t (k ∷ ks) files j n =
      let path = part_path t.path k in
      remove_parts-keeps t ks (remove_file (disk.removes path) path files) j n
      ∙ remove_file-other (disk.removes path) path files j (n _ _)

  module _ (parts : ℕ) where
    -- No partial file of the track is there that the system removes.
    abbrev pub IsClean : Files → StreamTrack → Type 0
    IsClean files t =
        (disk.removes (track_path t.path) ≡ true → get (track_path t.path) files ≡ none)
        × ((k : ℕ)
            → ltb k parts ≡ true
            → disk.removes (part_path t.path k) ≡ true
            → get (part_path t.path k) files ≡ none)

    cleared : Files → StreamTrack → Files
    cleared files t = remove_file (disk.removes (track_path t.path)) (track_path t.path) files

    cleanup_tracks-none :
        (ts : List StreamTrack) (files : Files) (j : Str)
        → get j files ≡ none
        → get j (cleanup_tracks disk parts ts files) ≡ none
    unfolding cleanup_tracks cleared
    cleanup_tracks-none [] files j h = h
    cleanup_tracks-none (t ∷ ts) files j h =
        cleanup_tracks-none ts (remove_parts disk t.path (count_up parts) (cleared files t)) j (
          remove_parts-none t.path (count_up parts) (cleared files t) j
            (remove_file-none (disk.removes (track_path t.path)) (track_path t.path) files j h))

    pub cleanup_tracks-keeps :
        (ts : List StreamTrack) (files : Files) (j : Str)
        → Every (Suffixed j) ts
        → get j (cleanup_tracks disk parts ts files) ≡ get j files
    unfolding cleanup_tracks cleared
    cleanup_tracks-keeps [] files j n = refl
    cleanup_tracks-keeps (t ∷ ts) files j n =
        cleanup_tracks-keeps ts (remove_parts disk t.path (count_up parts) (cleared files t)) j n.1
        ∙ remove_parts-keeps t (count_up parts) (cleared files t) j n.0
        ∙ remove_file-other (disk.removes (track_path t.path)) (track_path t.path) files j (n.0 _ _)

    pub cleanup_tracks-IsClean :
        (ts : List StreamTrack) (files : Files)
        → Every (IsClean (cleanup_tracks disk parts ts files)) ts
    unfolding cleanup_tracks cleared
    cleanup_tracks-IsClean [] files = tt
    cleanup_tracks-IsClean (t ∷ ts) files =
        let removed = remove_parts disk t.path (count_up parts) (cleared files t) in
        (
          (
            λ r. cleanup_tracks-none ts removed (track_path t.path) (
                remove_parts-none t.path (count_up parts) (cleared files t) (track_path t.path) (
                  remove_file-gone (disk.removes (track_path t.path)) (track_path t.path) files r)),
            λ k less r. cleanup_tracks-none ts removed (part_path t.path k) (
                remove_parts-gone t.path (count_up parts) (cleared files t) k
                  (ground (arith, times-count_up k parts, less)) r),
          ),
          cleanup_tracks-IsClean ts removed,
        )

-- The path of a track is no partial file.
pub own_paths : (ts : List StreamTrack) → Apart ts → Every (λ t. Every (Suffixed t.path) ts) ts
own_paths ts apart =
    Every-pairs (λ t u. Suffixed t.path u) ts (λ t c s. str_eq-longer t.path c s)
      (λ t u d. (diverge-Avoids u t (diverge_comm t.path u.path d)).1) apart
