-- ===== src/Sabr/Stored.antt =====
-- The files of the parts of a SABR download on the disk, in whatever order the parts were downloaded.
use type_type_downloader.Prelude.{
  Bool-cases, List, [], arith, false, inl, inr, ltb, refl, some, true, ℕ, ◌<◌, ◌==◌, ◌∙◌, ◌∷◌, ◌≡◌,
}
use type_type_downloader.Prelude.Map.{get, get-put, put}
use type_type_downloader.Prelude.Text.{
  Str, diverge, diverge_comm, str_eq, str_eq-diverge, str_eq_refl,
}
use type_type_downloader.Sabr.{StreamTrack}
use type_type_downloader.Sabr.Assembly.{Files}
use type_type_downloader.Sabr.Committed.{Apart, Every, Every-both, Every-map, Every-pairs}
use type_type_downloader.Sabr.PartLaws.{part_path-distinct}
use type_type_downloader.Sabr.Parts.{part_path}
use type_type_downloader.Sabr.Payloads.{payload_files}
use type_type_downloader.Sabr.Stream.Codec.{Frame}
use type_type_downloader.Sabr.Stream.Tracks.{payloads}
use type_type_downloader.Sabr.Workers.{times}

-- The writes of a part.
unfoldable pub put_all : List (Str × List ℕ) → Files → Files
put_all [] files = files
put_all ((path, content) ∷ rest) files = put_all rest (put path content files)

unfoldable pub store_parts : (ℕ → List (Str × List ℕ)) → List ℕ → Files → Files
unfolding put_all
store_parts written [] files = files
store_parts written (part ∷ rest) files = store_parts written rest (put_all (written part) files)

part_path-far :
    (t u : StreamTrack) (i k : ℕ)
    → diverge t.path u.path ≡ true
    → str_eq (part_path u.path k) (part_path t.path i) ≡ false
unfolding part_path
part_path-far t u i k d = str_eq-diverge u.path t.path _ _ (diverge_comm t.path u.path d)

module _ (fs : List Frame) (k : ℕ) where
  put_all-other :
      (ts : List StreamTrack) (files : Files) (j : Str)
      → Every (λ u. str_eq (part_path u.path k) j ≡ false) ts
      → get j (put_all (payload_files k fs ts) files) ≡ get j files
  unfolding put_all
  put_all-other [] files j n = refl
  put_all-other (t ∷ ts) files j n =
      put_all-other ts (put (part_path t.path k) (payloads (k == 0) t.itag fs) files) j n.1
      ∙ rw (get-put, n.0) refl

  put_all-hit :
      (ts : List StreamTrack) (files : Files)
      → Apart ts
      → Every
          (λ t.
            get (part_path t.path k) (put_all (payload_files k fs ts) files)
            ≡ some (payloads (k == 0) t.itag fs))
          ts
  unfolding put_all
  put_all-hit [] files apart = tt
  put_all-hit (t ∷ ts) files apart =
      let first = put (part_path t.path k) (payloads (k == 0) t.itag fs) files in
      (
        put_all-other ts first (part_path t.path k)
              (Every-map ts (λ u d. part_path-far t u k k d) apart.0)
            ∙ rw (get-put, str_eq_refl (part_path t.path k)) refl,
        put_all-hit ts first apart.1,
      )

  put_all-miss :
      (ts : List StreamTrack) (files : Files) (i : ℕ)
      → Apart ts
      → (i == k) ≡ false
      → Every
          (λ t.
            get (part_path t.path i) (put_all (payload_files k fs ts) files)
            ≡ get (part_path t.path i) files)
          ts
  put_all-miss ts files i apart differ =
      Every-map ts (λ t n. put_all-other ts files (part_path t.path i) n)
        (Every-pairs (λ t u. str_eq (part_path u.path k) (part_path t.path i) ≡ false) ts
          (λ t. part_path-distinct t.path k i (λ e. absurd (ground (arith, e, differ))))
          (λ t u d. part_path-far t u i k d) apart)

module _ (frames : ℕ → List Frame) (ts : List StreamTrack) (apart : Apart ts)
    (written : ℕ → List (Str × List ℕ)) where
  -- The files of the part `i` hold the payloads of its frames.
  abbrev pub Holds : ℕ → Files → StreamTrack → Type 0
  Holds i files t = get (part_path t.path i) files ≡ some (payloads (i == 0) t.itag (frames i))

  abbrev pub AllWritten : List ℕ → Type 0
  AllWritten order = (k : ℕ) → 0 < times k order → written k ≡ payload_files k (frames k) ts

  keeps_part :
      (i : ℕ) (order : List ℕ) (files : Files)
      → times i order ≡ 0
      → AllWritten order
      → Every (Holds i files) ts
      → Every (Holds i (store_parts written order files)) ts
  unfolding store_parts
  keeps_part i [] files h all e = e
  keeps_part i (k ∷ order) files h all e =
      keeps_part i order (put_all (written k) files) (ground arith)
        (λ j more. all j (omega (arith, more)))
        (rw (all k (ground arith)) (
          Every-both ts (λ t m old. m ∙ old)
            (put_all-miss (frames k) k ts files i apart (ground (arith, h))) e))

  pub store_parts-Holds :
      (i : ℕ) (order : List ℕ) (files : Files)
      → 0 < times i order
      → AllWritten order
      → Every (Holds i (store_parts written order files)) ts
  unfolding store_parts
  store_parts-Holds i [] files h all = absurd (omega arith)
  store_parts-Holds i (k ∷ order) files h all =
      let all' : AllWritten order = λ j more. all j (omega (arith, more)) in
      elim (Bool-cases (ltb 0 (times i order))) [
        | inl y ↦ store_parts-Holds i order (put_all (written k) files) (ground arith) all'
        | inr n ↦
            let same : k ≡ i = ground (arith, h, n) in
            keeps_part i order (put_all (written k) files) (ground arith) all'
              (rw (all k (ground arith), same) (put_all-hit (frames i) i ts files apart))
      ]
