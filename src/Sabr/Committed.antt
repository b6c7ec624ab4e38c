-- ===== src/Sabr/Committed.antt =====
-- The tracks as `assembleDownload` of internal/sabr/part_files.go leaves them.
use type_type_downloader.Prelude.{
  Bool-cases, List, Option, [], ap, false, inl, inr, none, refl, some, sym, true, ℕ, ◌++◌, ◌∙◌, ◌∷◌,
  ◌≡◌,
}
use type_type_downloader.Prelude.Map.{get, get-delete, get-put}
use type_type_downloader.Prelude.Text.{
  Str, differ-diverge, diverge, diverge_comm, lit, str_eq, str_eq-diverge, str_eq-diverge_alone,
  str_eq-false_comm, str_eq_refl,
}
use type_type_downloader.Sabr.{StreamTrack}
use type_type_downloader.Sabr.Assembled.{
  assemble_track-other, assemble_track-whole, whole, whole-agree,
}
use type_type_downloader.Sabr.Assembly.{
  AssemblyDisk, AssemblyError, Files, and_then, assemble_track, assemble_tracks, commit_tracks,
  rename_track, track_path,
}
use type_type_downloader.Sabr.Parts.{part_path}
use type_type_downloader.Sabr.Workers.{count_up}

abbrev pub Every : (StreamTrack → Type 0) → List StreamTrack → Type 0
Every P [] = Unit
Every P (t ∷ ts) = P t × Every P ts

pub Every-both :
    {P Q R : StreamTrack → Type 0} (ts : List StreamTrack)
    → ((t : StreamTrack) → P t → Q t → R t)
    → Every P ts
    → Every Q ts
    → Every R ts
Every-both [] f p q = tt
Every-both (t ∷ ts) f p q = (f t p.0 q.0, Every-both ts f p.1 q.1)

pub Every-map :
    {P Q : StreamTrack → Type 0} (ts : List StreamTrack)
    → ((t : StreamTrack) → P t → Q t)
    → Every P ts
    → Every Q ts
Every-map [] f p = tt
Every-map (t ∷ ts) f p = (f t p.0, Every-map ts f p.1)

-- No path of the tracks starts with another.
abbrev pub Apart : List StreamTrack → Type 0
Apart [] = Unit
Apart (t ∷ ts) = Every (λ u. diverge t.path u.path ≡ true) ts × Apart ts

-- What holds between the tracks of different paths, and of a track and itself.
pub Every-pairs :
    (Q : StreamTrack → StreamTrack → Type 0) (ts : List StreamTrack)
    → ((t : StreamTrack) → Q t t)
    → ((t u : StreamTrack) → diverge t.path u.path ≡ true → Q t u)
    → Apart ts
    → Every (λ t. Every (Q t) ts) ts
Every-pairs Q [] self others apart = tt
Every-pairs Q (t ∷ ts) self others apart = (
  (self t, Every-map ts (λ u d. others t u d) apart.0),
  Every-both ts (λ u d e. (others u t (diverge_comm t.path u.path d), e)) apart.0
      (Every-pairs Q ts self others apart.1),
)

-- The path is not a partial file of the track.
abbrev pub Suffixed : Str → StreamTrack → Type 0
Suffixed j u = (c : ℕ) (s : Str) → str_eq (u.path ++ c ∷ s) j ≡ false

abbrev pub Avoids : Str → StreamTrack → Type 0
Avoids j u = (str_eq u.path j ≡ false) × ((c : ℕ) (s : Str) → str_eq (u.path ++ c ∷ s) j ≡ false)

pub diverge-Avoids : (t u : StreamTrack) → diverge t.path u.path ≡ true → Avoids u.path t
diverge-Avoids t u d =
    (differ-diverge t.path u.path d, λ c s. str_eq-diverge_alone t.path u.path (c ∷ s) d)

diverge-Avoids_file :
    (t u : StreamTrack) (r : Str) → diverge t.path u.path ≡ true → Avoids (u.path ++ r) t
diverge-Avoids_file t u r d = (
  str_eq-false_comm (u.path ++ r) t.path
      (str_eq-diverge_alone u.path t.path r (diverge_comm t.path u.path d)),
  λ c s. str_eq-diverge t.path u.path (c ∷ s) r d,
)

track-part :
    (t u : StreamTrack) (k : ℕ)
    → diverge t.path u.path ≡ true
    → str_eq (track_path t.path) (part_path u.path k) ≡ false
unfolding part_path
track-part t u k d = str_eq-diverge t.path u.path _ _ d

-- The names of a track, seen from the tracks after it.
module _ (t : StreamTrack) where
  avoid_path :
      (ts : List StreamTrack)
      → Every (λ u. diverge t.path u.path ≡ true) ts
      → Every (Avoids t.path) ts
  avoid_path ts = Every-map ts (λ u d. diverge-Avoids u t (diverge_comm t.path u.path d))

  avoid_file :
      (r : Str) (ts : List StreamTrack)
      → Every (λ u. diverge t.path u.path ≡ true) ts
      → Every (Avoids (t.path ++ r)) ts
  avoid_file r ts = Every-map ts (λ u d. diverge-Avoids_file u t r (diverge_comm t.path u.path d))

pub and_then-keeps :
    (r : Files × Option AssemblyError) (next : Files → Files × Option AssemblyError) (j : Str)
    {v : Option (List ℕ)}
    → get j r.0 ≡ v
    → ((files : Files) → get j files ≡ v → get j (next files).0 ≡ v)
    → get j (and_then r next).0 ≡ v
and_then-keeps (files, some e) next j h keeps = h
and_then-keeps (files, none) next j h keeps = keeps files h

pub and_then-ok :
    (r : Files × Option AssemblyError) (next : Files → Files × Option AssemblyError)
    → (and_then r next).1 ≡ none
    → (r.1 ≡ none) × (and_then r next ≡ next r.0)
and_then-ok (files, some e) next h = absurd (cc h)
and_then-ok (files, none) next h = (refl, refl)

module _ (disk : AssemblyDisk) (parts : ℕ) where
  pub assemble_tracks-keeps :
      (ts : List StreamTrack) (j : Str) {v : Option (List ℕ)}
      → Every (Suffixed j) ts
      → (files : Files) → get j files ≡ v
      → get j (assemble_tracks disk parts ts files).0 ≡ v
  unfolding assemble_tracks
  assemble_tracks-keeps [] j n files h = h
  assemble_tracks-keeps (t ∷ ts) j n files h =
      and_then-keeps (assemble_track disk parts t files) (assemble_tracks disk parts ts) j
        (assemble_track-other disk parts t files j (n.0 _ _) ∙ h) (assemble_tracks-keeps ts j n.1)

  pub assemble_tracks-whole :
      (ts : List StreamTrack) (files : Files)
      → Apart ts
      → (assemble_tracks disk parts ts files).1 ≡ none
      → Every
          (λ t.
            get (track_path t.path) (assemble_tracks disk parts ts files).0
            ≡ whole t.path (count_up parts) files)
          ts
  unfolding assemble_tracks
  assemble_tracks-whole [] files apart h = tt
  assemble_tracks-whole (t ∷ ts) files apart h =
      let assembled = assemble_track disk parts t files in
      let (q, same) = and_then-ok assembled (assemble_tracks disk parts ts) h in
      rw same (
        assemble_tracks-keeps ts (track_path t.path)
            (Every-map ts (λ u a. a.1) (avoid_file t (lit ".download") ts apart.0)) assembled.0
            (assemble_track-whole disk parts t files q),
        Every-both ts
            (λ u d w.
              ap (λ (r : Files × Option AssemblyError). get (track_path u.path) r.0) same
              ∙ w
              ∙ whole-agree disk parts u.path (count_up parts) files assembled.0 (λ k.
                assemble_track-other disk parts t files (part_path u.path k) (track-part t u k d)))
            apart.0 (assemble_tracks-whole ts assembled.0 apart.1 (rw same at h)),
      )

  renamed_content :
      (t : StreamTrack) (files : Files) (o : Option (List ℕ))
      → (rename_track disk t files o).1 ≡ none
      → (content : List ℕ) × (o ≡ some content)
        × (get t.path (rename_track disk t files o).0 ≡ some content)
  unfolding rename_track
  renamed_content t files none h = absurd (cc h)
  renamed_content t files (some content) h = elim (Bool-cases (disk.renames (track_path t.path))) [
    | inl y ↦ (content, refl, rw y (rw (get-put, str_eq_refl t.path) refl))
    | inr n ↦ absurd (cc (rw n at h))
  ]

  rename_track-other :
      (t : StreamTrack) (files : Files) (o : Option (List ℕ)) (j : Str)
      → Avoids j t
      → get j (rename_track disk t files o).0 ≡ get j files
  unfolding rename_track
  rename_track-other t files none j n = refl
  rename_track-other t files (some content) j n =
      elim (Bool-cases (disk.renames (track_path t.path))) [
        | inl y ↦ rw y (rw (get-put, n.0, get-delete, n.1 _ _) refl)
        | inr m ↦ rw m refl
      ]

  pub commit_tracks-keeps :
      (ts : List StreamTrack) (j : Str) {v : Option (List ℕ)}
      → Every (Avoids j) ts
      → (files : Files) → get j files ≡ v
      → get j (commit_tracks disk ts files).0 ≡ v
  unfolding commit_tracks
  commit_tracks-keeps [] j n files h = h
  commit_tracks-keeps (t ∷ ts) j n files h =
      and_then-keeps (rename_track disk t files (get (track_path t.path) files))
        (commit_tracks disk ts) j
        (rename_track-other t files (get (track_path t.path) files) j n.0 ∙ h)
        (commit_tracks-keeps ts j n.1)

  -- Each track is what its assembled file was.
  abbrev pub Committed : Files → Files → StreamTrack → Type 0
  Committed before after t =
      (content : List ℕ) × (get (track_path t.path) before ≡ some content)
      × (get t.path after ≡ some content)

  pub commit_tracks-Committed :
      (ts : List StreamTrack) (files : Files)
      → Apart ts
      → (commit_tracks disk ts files).1 ≡ none
      → Every (Committed files (commit_tracks disk ts files).0) ts
  unfolding commit_tracks
  commit_tracks-Committed [] files apart h = tt
  commit_tracks-Committed (t ∷ ts) files apart h =
      let renamed = rename_track disk t files (get (track_path t.path) files) in
      let (q, same) = and_then-ok renamed (commit_tracks disk ts) h in
      let (content, there, here) = renamed_content t files (get (track_path t.path) files) q in
      (
        (
          content,
          there,
          rw same (commit_tracks-keeps ts t.path (avoid_path t ts apart.0) renamed.0 here),
        ),
        Every-both ts
            (λ u d c. (
              c.0,
              sym (
                    rename_track-other t files (get (track_path t.path) files) (track_path u.path)
                      (diverge-Avoids_file t u (lit ".download") d))
                  ∙ c.1,
              ap (λ (r : Files × Option AssemblyError). get u.path r.0) same ∙ c.2,
            ))
            apart.0 (commit_tracks-Committed ts renamed.0 apart.1 (rw same at h)),
      )
