-- ===== src/Sabr/Outcome.antt =====
-- What an attempt at a SABR download, `downloadAttempt` of internal/sabr/download.go, leaves on the disk.
use type_type_downloader.Prelude.{
  Bool-cases, List, Option, [], ap, inl, inr, none, refl, some, sym, ℕ, ◌∙◌, ◌∷◌, ◌≡◌, ◌⊎◌,
}
use type_type_downloader.Prelude.Map.{get}
use type_type_downloader.Prelude.Text.{Str}
use type_type_downloader.Sabr.{SabrOptions, StreamTrack}
use type_type_downloader.Sabr.Assembled.{whole}
use type_type_downloader.Sabr.Assembly.{
  AssemblyDisk, AssemblyError, AttemptError, Files, after_parts, and_then, assemble_download,
  assemble_tracks, assembly_error, assembly_failed, cleanup_download_files, cleanup_tracks,
  commit_track, commit_tracks, download_attempt, parts_failed, rename_track, track_path,
}
use type_type_downloader.Sabr.Committed.{
  Apart, Every, Every-both, Every-map, assemble_tracks-keeps, assemble_tracks-whole,
  commit_tracks-Committed,
}
use type_type_downloader.Sabr.Leftovers.{
  IsClean, cleanup_tracks-IsClean, cleanup_tracks-keeps, own_paths,
}
use type_type_downloader.Sabr.Parts.{track_specs}
use type_type_downloader.Sabr.Workers.{count_up}

module _ (disk : AssemblyDisk) (parts : ℕ) where
  rename_track-error :
      (t : StreamTrack) (files : Files) (o : Option (List ℕ)) (e : AssemblyError)
      → (rename_track disk t files o).1 ≡ some e
      → e ≡ commit_track t.kind
  unfolding rename_track
  rename_track-error t files none e q = cc q
  rename_track-error t files (some content) e q =
      elim (Bool-cases (disk.renames (track_path t.path))) [
        | inl y ↦ absurd (cc (rw y at q))
        | inr n ↦ cc (rw n at q)
      ]

  commit_tracks-error :
      (ts : List StreamTrack) (files : Files) (e : AssemblyError)
      → (commit_tracks disk ts files).1 ≡ some e
      → (kind : Str) × (e ≡ commit_track kind)
  unfolding commit_tracks
  commit_tracks-error [] files e h = absurd (cc h)
  commit_tracks-error (t ∷ ts) files e h =
      after_rename (rename_track disk t files (get (track_path t.path) files))
        (λ g. commit_tracks-error ts g e) refl h
    where
      after_rename :
          (r : Files × Option AssemblyError)
          → ((g : Files)
              → (commit_tracks disk ts g).1 ≡ some e
              → (kind : Str) × (e ≡ commit_track kind))
          → rename_track disk t files (get (track_path t.path) files) ≡ r
          → (and_then r (commit_tracks disk ts)).1 ≡ some e
          → (kind : Str) × (e ≡ commit_track kind)
      after_rename (g, none) later q h' = later g h'
      after_rename (g, some found) later q h' = (
        t.kind,
        rename_track-error t files (get (track_path t.path) files) e (ap (λ x. x.1) q ∙ h'),
      )

  -- The track is the files of its parts, put together in their order.
  abbrev pub Saved : Files → Files → StreamTrack → Type 0
  Saved before after t =
      (content : List ℕ) × (whole t.path (count_up parts) before ≡ some content)
      × (get t.path after ≡ some content)

  abbrev pub Unchanged : Files → Files → StreamTrack → Type 0
  Unchanged before after t = get t.path after ≡ get t.path before

  -- What a failure leaves: only a failed rename may have changed a track.
  abbrev pub Kept :
      {E : Type 0} → List StreamTrack → Files → Files → Option (AttemptError E) → Type 0
  Kept ts before after none = Every (Saved before after) ts
  Kept ts before after (some e) =
      ((kind : Str) × (e ≡ assembly_failed (commit_track kind))) ⊎ Every (Unchanged before after) ts

  -- After the tracks were assembled in `g`.
  after_assembly :
      (E : Type 0) (ts : List StreamTrack) (files g : Files) (r : Files × Option AssemblyError)
      → Apart ts
      → Every (λ t. get (track_path t.path) g ≡ whole t.path (count_up parts) files) ts
      → commit_tracks disk ts g ≡ r
      → Kept {E = E} ts files r.0 (assembly_error r.1)
  after_assembly E ts files g (h, some e) apart made q =
      let (kind, same) = commit_tracks-error ts g e (ap (λ x. x.1) q) in
      inl (kind, ap assembly_failed same)
  after_assembly E ts files g (h, none) apart made q =
      Every-both ts
        (λ t m c. (
          c.0,
          sym m ∙ c.1,
          sym (ap (λ (x : Files × Option AssemblyError). get t.path x.0) q) ∙ c.2,
        ))
        made (commit_tracks-Committed disk parts ts g apart (ap (λ x. x.1) q))

  assembled_outcome :
      (E : Type 0) (ts : List StreamTrack) (files : Files) (r : Files × Option AssemblyError)
      → Apart ts
      → assemble_tracks disk parts ts files ≡ r
      → Kept {E = E} ts files
          (and_then r (commit_tracks disk ts)).0
          (assembly_error (and_then r (commit_tracks disk ts)).1)
  assembled_outcome E ts files (g, some e) apart q = inr (
      Every-map ts
        (λ t n.
          sym (ap (λ (x : Files × Option AssemblyError). get t.path x.0) q)
          ∙ assemble_tracks-keeps disk parts ts t.path n files refl)
        (own_paths ts apart))
  assembled_outcome E ts files (g, none) apart q =
      after_assembly E ts files g (commit_tracks disk ts g) apart
        (Every-map ts
          (λ t w.
            sym (ap (λ (x : Files × Option AssemblyError). get (track_path t.path) x.0) q) ∙ w)
          (assemble_tracks-whole disk parts ts files apart (ap (λ x. x.1) q)))
        refl

  -- The cleanup leaves the tracks as they are.
  cleaned :
      {E : Type 0} (ts : List StreamTrack) (before after : Files) (e : Option (AttemptError E))
      → Apart ts
      → Kept ts before after e
      → Kept ts before (cleanup_tracks disk parts ts after) e
  cleaned ts before after none apart k =
      Every-both ts (λ t n s. (s.0, s.1, cleanup_tracks-keeps disk parts ts after t.path n ∙ s.2))
        (own_paths ts apart) k
  cleaned ts before after (some e) apart (inl k) = inl k
  cleaned ts before after (some e) apart (inr k) = inr (
      Every-both ts (λ t n s. cleanup_tracks-keeps disk parts ts after t.path n ∙ s)
        (own_paths ts apart) k)

  abbrev pub AttemptOutcome :
      {E : Type 0} → List StreamTrack → Files → Files × Option (AttemptError E) → Type 0
  AttemptOutcome ts before (after, error) =
      Every (IsClean disk parts after) ts × Kept ts before after error

  -- After an attempt at a SABR download the only partial files of its tracks that are left are those
  -- whose removal the system refuses. If it ends without an error, each track is the files of its
  -- parts, as `downloadParts` left them, put together in their order; if it fails, each track is what
  -- it was then, unless a rename has failed. No path of a track starts with the path of the other.
  pub download_attempt-Outcome :
      {E : Type 0} (options : SabrOptions) (downloaded : Files × Option E)
      → Apart (track_specs options)
      → AttemptOutcome
          (track_specs options)
          downloaded.0
          (download_attempt disk options parts downloaded)
  unfolding download_attempt after_parts assemble_download cleanup_download_files
  download_attempt-Outcome options (files, some e) apart = (
    cleanup_tracks-IsClean disk parts (track_specs options) files,
    cleaned (track_specs options) files files (some (parts_failed e)) apart (
        inr
          (Every-map (track_specs options) (λ t n. refl) (own_paths (track_specs options) apart))),
  )
  download_attempt-Outcome options (files, none) apart =
      let ts = track_specs options in
      let assembled = assemble_download disk options parts files in
      (
        cleanup_tracks-IsClean disk parts ts assembled.0,
        cleaned ts files assembled.0 (assembly_error assembled.1) apart
            (assembled_outcome _ ts files (assemble_tracks disk parts ts files) apart refl),
      )
