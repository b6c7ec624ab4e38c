-- ===== src/Sabr/Delivered.antt =====
-- A whole SABR download, from the streams of the parts to the tracks: `downloadPart` and the workers
-- of internal/sabr/multipart.go, and `downloadAttempt` of download.go.
use type_type_downloader.Prelude.{
  Bool-cases, List, Option, [], arith, if◌then◌else◌, inl, inr, ltb, none, refl, some, sym, true, ℕ,
  ◌++◌, ◌<◌, ◌==◌, ◌∙◌, ◌∷◌, ◌≡◌, ◌≤◌,
}
use type_type_downloader.Prelude.Int.{ℤ}
use type_type_downloader.Prelude.Map.{get}
use type_type_downloader.Prelude.Result.{ok}
use type_type_downloader.Prelude.Text.{Str}
use type_type_downloader.Sabr.{SabrOptions, StreamTrack}
use type_type_downloader.Sabr.Assembled.{whole}
use type_type_downloader.Sabr.Assembly.{AssemblyDisk, AttemptError, Files, download_attempt}
use type_type_downloader.Sabr.Committed.{Apart, Every, Every-both, Every-map}
use type_type_downloader.Sabr.Fetching.{PartWorld, download_part}
use type_type_downloader.Sabr.Outcome.{Kept, Saved, download_attempt-Outcome}
use type_type_downloader.Sabr.Parts.{part_path, track_specs}
use type_type_downloader.Sabr.Payloads.{download_part-payload_files}
use type_type_downloader.Sabr.Stored.{AllWritten, store_parts, store_parts-Holds}
use type_type_downloader.Sabr.Stream.{download_magic}
use type_type_downloader.Sabr.Stream.Codec.{Frame}
use type_type_downloader.Sabr.Stream.Frames.{ends}
use type_type_downloader.Sabr.Stream.Play.{IsBody, encode_body, payload_bytes}
use type_type_downloader.Sabr.Stream.Tracks.{Distinct, itags, payloads}
use type_type_downloader.Sabr.Workers.{
  AllReturned, Pool, PoolRuns, count_up, downloaded_once, returns_nil, start_pool, times,
  times-count_up,
}

Every-all :
    (P : ℕ → StreamTrack → Type 0) (ts : List StreamTrack)
    → ((k : ℕ) → Every (P k) ts)
    → Every (λ t. (k : ℕ) → P k t) ts
Every-all P [] h = tt
Every-all P (t ∷ ts) h = (λ k. (h k).0, Every-all P ts (λ k. (h k).1))

Every-of :
    (P : StreamTrack → Type 0) (ts : List StreamTrack) → ((t : StreamTrack) → P t) → Every P ts
Every-of P [] h = tt
Every-of P (t ∷ ts) h = (h t, Every-of P ts h)

Kept-none :
    {E : Type 0} (disk : AssemblyDisk) (parts : ℕ) (ts : List StreamTrack) (before after : Files)
    (e : Option (AttemptError E))
    → Kept disk parts ts before after e
    → e ≡ none
    → Every (Saved disk parts before after) ts
Kept-none disk parts ts before after none k h = k
Kept-none disk parts ts before after (some e) k h = absurd (cc h)

-- The server sends the frames, and the disk has room for them.
pub record IsServed {E : Type 0} (w : PartWorld E) (fs : List Frame) : Type 0 where
  pub streamed : w.body ≡ ends (download_magic ++ encode_body fs)
  pub body : IsBody fs
  pub fits : payload_bytes fs ≤ w.room

-- The payloads of a track in the parts, with the initialization data of the first part only.
abbrev pub contents : (ℕ → List Frame) → ℤ → List ℕ → List ℕ
contents frames itag [] = []
contents frames itag (k ∷ ks) = payloads (k == 0) itag (frames k) ++ contents frames itag ks

whole-contents :
    (frames : ℕ → List Frame) (t : StreamTrack) (files : Files) (ks : List ℕ)
    → ((k : ℕ)
        → 0 < times k ks
        → get (part_path t.path k) files ≡ some (payloads (k == 0) t.itag (frames k)))
    → whole t.path ks files ≡ some (contents frames t.itag ks)
whole-contents frames t files [] h = refl
whole-contents frames t files (k ∷ ks) h =
    rw (h k (ground arith), whole-contents frames t files ks (λ j more. h j (omega (arith, more))))
      refl

listed : (k parts : ℕ) → 0 < times k (count_up parts) → ltb k parts ≡ true
listed k parts h = ground (arith, times-count_up k parts)

all_held :
    (frames : ℕ → List Frame) (ts : List StreamTrack) (apart : Apart ts)
    (written : ℕ → List (Str × List ℕ)) (order : List ℕ) (files : Files) (parts : ℕ)
    → ((k : ℕ) → times k order ≡ (if ltb k parts then 1 else 0))
    → AllWritten frames ts apart written order
    → Every
        (λ t.
          (k : ℕ)
          → 0 < times k (count_up parts)
          → get (part_path t.path k) (store_parts written order files)
            ≡ some (payloads (k == 0) t.itag (frames k)))
        ts
all_held frames ts apart written order files parts once all =
    Every-all
      (λ k t.
        0 < times k (count_up parts)
        → get (part_path t.path k) (store_parts written order files)
          ≡ some (payloads (k == 0) t.itag (frames k)))
      ts
      (λ k. elim (Bool-cases (ltb k parts)) [
        | inl y ↦
            Every-map ts (λ t g c. g)
              (store_parts-Holds frames ts apart written k order files (ground (arith, once k, y))
                all)
        | inr n ↦ Every-of _ ts (λ t c. absurd (ground (arith, listed k parts c, n)))
      ])

module _ {E : Type 0} (disk : AssemblyDisk) (options : SabrOptions) (parts : ℕ)
    (worlds : ℕ → PartWorld E) (frames : ℕ → List Frame) (written : ℕ → List (Str × List ℕ)) where
  -- However the workers step: when `downloadParts` returns nil and the attempt ends without an error,
  -- each track is the payloads of its own frames, part after part, with the initialization data of the
  -- first part only. The server sends well-formed frames for each part, the disk has room for them,
  -- the tracks have different itags and paths of which none starts with another, and a part that a
  -- worker has finished was downloaded without an error.
  pub download_attempt-contents :
      {s : Pool} (files : Files)
      → Apart (track_specs options)
      → Distinct (itags (track_specs options))
      → ((k : ℕ) → IsServed (worlds k) (frames k))
      → PoolRuns (start_pool parts) s
      → AllReturned s
      → returns_nil s ≡ true
      → ((k : ℕ)
          → 0 < times k s.finished_parts
          → (download_part (worlds k) options k parts).1 ≡ ok (written k))
      → (download_attempt {E = E} disk options parts
          (store_parts written s.finished_parts files, none)).1
        ≡ none
      → Every
          (λ t.
            get t.path
              (download_attempt {E = E} disk options parts
                (store_parts written s.finished_parts files, none)).0
            ≡ some (contents frames t.itag (count_up parts)))
          (track_specs options)
  download_attempt-contents {s} files apart distinct served runs returned nil downloads
        none_failed =
      let ts = track_specs options in
      let stored = store_parts written s.finished_parts files in
      let all : AllWritten frames ts apart written s.finished_parts = λ k done.
        download_part-payload_files (worlds k) options k (frames k) (served k).streamed
          (served k).body (served k).fits distinct parts (written k) (downloads k done) in
      let once = downloaded_once parts runs returned nil in
      let after = download_attempt {E = E} disk options parts (stored, none) in
      let (clean, kept) = download_attempt-Outcome disk parts options (stored, none) apart in
      Every-both ts
        (λ t held saved.
          saved.2 ∙ sym saved.1 ∙ whole-contents frames t stored (count_up parts) held)
        (all_held frames ts apart written s.finished_parts files parts once all)
        (Kept-none disk parts ts stored after.0 after.1 kept none_failed)
