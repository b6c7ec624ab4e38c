-- ===== src/Sabr/Assembled.antt =====
-- The file of one track as `assembleTrack` leaves it, from the files of its parts.
use type_type_downloader.Prelude.{
  Bool-cases, List, Option, Option-cases, [], ap, append-nil, append_assoc, false, inl, inr, none,
  not, refl, some, sym, ℕ, ◌++◌, ◌∙◌, ◌∷◌, ◌≡◌,
}
use type_type_downloader.Prelude.Disk.{remove_file-other}
use type_type_downloader.Prelude.Map.{get, get-put, put}
use type_type_downloader.Prelude.Result.{Result, Result-cases, err, ok}
use type_type_downloader.Prelude.Text.{Str, lit, str_eq, str_eq_append, str_eq_refl}
use type_type_downloader.Sabr.{StreamTrack}
use type_type_downloader.Sabr.Assembly.{
  AssemblyDisk, AssemblyError, Files, append_parts, assemble_track, finish_track, read_part,
  track_path,
}
use type_type_downloader.Sabr.Parts.{padded, part_path}
use type_type_downloader.Sabr.Workers.{count_up}

abbrev pub joined : Option (List ℕ) → Option (List ℕ) → Option (List ℕ)
joined none rest = none
joined (some content) none = none
joined (some content) (some more) = some (content ++ more)

-- The files of the parts of a track, in their order, or none where one is missing.
abbrev pub whole : Str → List ℕ → Files → Option (List ℕ)
whole target [] files = some []
whole target (part ∷ rest) files =
    joined (get (part_path target part) files) (whole target rest files)

module _ (disk : AssemblyDisk) (parts : ℕ) where
  finish_track-other :
      (kind target : Str) (files : Files) (j : Str) (r : Result AssemblyError (List ℕ))
      → str_eq (track_path target) j ≡ false
      → get j (finish_track disk kind target files r).0 ≡ get j files
  unfolding finish_track
  finish_track-other kind target files j (err e) n =
      remove_file-other (disk.discards (track_path target)) (track_path target) files j n
  finish_track-other kind target files j (ok content) n =
      elim (Bool-cases (disk.closes (track_path target))) [
        | inl y ↦ rw y (rw (get-put, n) refl)
        | inr m ↦
            rw m
              (remove_file-other (disk.discards (track_path target)) (track_path target) files j n)
      ]

  finish_track-ok :
      (kind target : Str) (files : Files) (r : Result AssemblyError (List ℕ))
      → (finish_track disk kind target files r).1 ≡ none
      → (content : List ℕ) × (r ≡ ok content)
        × (get (track_path target) (finish_track disk kind target files r).0 ≡ some content)
  unfolding finish_track
  finish_track-ok kind target files (err e) h = absurd (cc h)
  finish_track-ok kind target files (ok content) h =
      elim (Bool-cases (disk.closes (track_path target))) [
        | inl y ↦ (content, refl, rw y (rw (get-put, str_eq_refl (track_path target)) refl))
        | inr m ↦ absurd (cc (rw m at h))
      ]

  read_part-ok :
      (kind path : Str) (files : Files) (content : List ℕ)
      → read_part disk kind path files ≡ ok content
      → get path files ≡ some content
  unfolding read_part
  read_part-ok kind path files content h = elim (Option-cases (get path files)) [
    | inl e ↦ absurd (cc (rw (read_part, e) at h))
    | inr (c, e) ↦ elim (Bool-cases (not (disk.opens path))) [
      | inl y ↦ absurd (cc (rw (read_part, e, y) at h))
      | inr n ↦ elim (Bool-cases (not (disk.copies path))) [
        | inl y ↦ absurd (cc (rw (read_part, e, n, y) at h))
        | inr m ↦ elim (Bool-cases (disk.closes path)) [
          | inl y ↦ cc (e, rw (read_part, e, n, m, y) at h)
          | inr k ↦ absurd (cc (rw (read_part, e, n, m, k) at h))
        ]
      ]
    ]
  ]

  append_parts-whole :
      (kind target : Str) (files : Files) (written : List ℕ) (ks : List ℕ) (content : List ℕ)
      → append_parts disk kind target files written ks ≡ ok content
      → (more : List ℕ) × (whole target ks files ≡ some more) × (written ++ more ≡ content)
  unfolding append_parts
  append_parts-whole kind target files written [] content h = ([], refl, append-nil written ∙ cc h)
  append_parts-whole kind target files written (k ∷ ks) content h =
      elim (Result-cases (read_part disk kind (part_path target k) files)) [
        | inr (e, q) ↦ absurd (cc (rw (append_parts, q) at h))
        | inl (c, q) ↦
            let (more, w, same) =
              append_parts-whole kind target files (written ++ c) ks content
                (rw (append_parts, q) at h) in
            (
              c ++ more,
              rw (read_part-ok kind (part_path target k) files c q, w) refl,
              sym (append_assoc written c more) ∙ same,
            )
      ]

  pub whole-agree :
      (target : Str) (ks : List ℕ) (f g : Files)
      → ((k : ℕ) → get (part_path target k) g ≡ get (part_path target k) f)
      → whole target ks g ≡ whole target ks f
  whole-agree target [] f g same = refl
  whole-agree target (k ∷ ks) f g same = rw (same k, whole-agree target ks f g same) refl

  shorter : (s : Str) → str_eq (lit ".download") (lit ".download.part-" ++ s) ≡ false
  unfolding str_eq
  shorter s = refl

  track_is_no_part :
      (target : Str) (k : ℕ) → str_eq (track_path target) (part_path target k) ≡ false
  unfolding part_path
  track_is_no_part target k =
      str_eq_append target (lit ".download") (lit ".download.part-" ++ padded k)
      ∙ shorter (padded k)

  pub assemble_track-other :
      (t : StreamTrack) (files : Files) (j : Str)
      → str_eq (track_path t.path) j ≡ false
      → get j (assemble_track disk parts t files).0 ≡ get j files
  unfolding assemble_track
  assemble_track-other t files j n = elim (Bool-cases (disk.creates (track_path t.path))) [
    | inr m ↦ rw m refl
    | inl y ↦
        let created = put (track_path t.path) [] files in
        rw y (
          finish_track-other t.kind t.path created j
            (append_parts disk t.kind t.path created [] (count_up parts)) n
          ∙ rw (get-put, n) refl)
  ]

  pub assemble_track-whole :
      (t : StreamTrack) (files : Files)
      → (assemble_track disk parts t files).1 ≡ none
      → get (track_path t.path) (assemble_track disk parts t files).0
        ≡ whole t.path (count_up parts) files
  unfolding assemble_track
  assemble_track-whole t files h = elim (Bool-cases (disk.creates (track_path t.path))) [
    | inr m ↦ absurd (cc (rw m at h))
    | inl y ↦
        let created = put (track_path t.path) [] files in
        let (content, r, there) =
          finish_track-ok t.kind t.path created
            (append_parts disk t.kind t.path created [] (count_up parts)) (rw y at h) in
        let (more, w, same) =
          append_parts-whole t.kind t.path created [] (count_up parts) content r in
        rw y (
          there
          ∙ ap some (sym same)
          ∙ sym w
          ∙ whole-agree t.path (count_up parts) files created
              (λ k. rw (get-put, track_is_no_part t.path k) refl))
  ]
