-- ===== src/Downloader/Files.antt =====
-- internal/downloader/range_downloader.go: `DownloadFile` on the file system, and what
-- `downloadChunks` makes of what its workers have done. The file system is the content by path.
use type_type_downloader.Prelude.{
  Bool, Bool-cases, List, Option, Option-cases, [], ap, arith, false, if◌then◌else◌, inl, inr, none,
  not, refl, some, suc, sym, ℕ, ◌++◌, ◌/◌, ◌∙◌, ◌∷◌, ◌≡◌,
}
use type_type_downloader.Downloader.{DownloadOptions, Source, normalized_options}
use type_type_downloader.Downloader.Copying.{DownloadError}
use type_type_downloader.Downloader.Fetch.{Answer}
use type_type_downloader.Downloader.Probe.{source_size}
use type_type_downloader.Prelude.Disk.{remove_file, remove_file-other}
use type_type_downloader.Prelude.Int.{eq_ℤ, ltb_ℤ, negsuc, pos, pos_part, ℤ, ◌+ℤ◌, ◌-ℤ◌}
use type_type_downloader.Prelude.Map.{Map, delete, get, get-delete, get-put, put}
use type_type_downloader.Prelude.Result.{Result, err, ok}
use type_type_downloader.Prelude.Text.{Str, lit, str_eq, str_eq_refl}
use type_type_downloader.Prelude.Words.{i64}

pub data FileFailure (E : Type 0) : Type 0 where
  no_size : DownloadError → FileFailure E
  not_opened not_truncated not_closed not_renamed : FileFailure E
  chunks_failed : E → FileFailure E

-- What the system answers, and what the workers leave: the content of the file and the error that
-- `downloadChunks` returns. The two calls of os.Remove leave their errors alone: `removes_old` is the
-- one before the download, `removes_part` the one after a failure.
pub record FileWorld (E : Type 0) : Type 0 where
  pub answer : Answer
  pub opens : Bool
  pub truncates : Bool
  pub chunks : ℤ → List ℕ × Option E
  pub closes : Bool
  pub renames : Bool
  pub removes_old : Bool
  pub removes_part : Bool

abbrev pub part_suffix : Str
part_suffix = lit ".part"

-- The content and the error after the file was opened.
unfoldable pub fill_file : {E : Type 0} → FileWorld E → ℤ → Result (FileFailure E) (List ℕ)
fill_file w size = if not w.truncates then err not_truncated else elim (w.chunks size).1 [
  | some e ↦ err (chunks_failed e)
  | none ↦
      if not w.closes
      then err not_closed
      else if w.renames
      then ok (w.chunks size).0
      else err not_renamed
]

-- The rename, or the deferred removal.
unfoldable pub commit_file :
    {E : Type 0}
    → Bool
    → Str
    → Map (List ℕ)
    → Result (FileFailure E) (List ℕ)
    → Map (List ℕ) × Option (FileFailure E)
commit_file removed output files (err e) =
    (remove_file removed (output ++ part_suffix) files, some e)
commit_file removed output files (ok content) =
    (put output content (delete (output ++ part_suffix) files), none)

unfoldable pub download_sized :
    {E : Type 0}
    → FileWorld E
    → Str
    → Map (List ℕ)
    → Result DownloadError ℤ
    → Map (List ℕ) × Option (FileFailure E)
unfolding fill_file commit_file remove_file
download_sized w output files (err e) = (files, some (no_size e))
download_sized w output files (ok size) =
    let cleared = remove_file w.removes_old (output ++ part_suffix) files in
    if w.opens
    then commit_file w.removes_part output (put (output ++ part_suffix) [] cleared)
        (fill_file w size)
    else (cleared, some not_opened)

unfoldable pub download_file :
    {E : Type 0}
    → FileWorld E
    → Source
    → Str
    → DownloadOptions
    → Map (List ℕ)
    → Map (List ℕ) × Option (FileFailure E)
unfolding download_sized source_size normalized_options
download_file w source output options files =
    download_sized w output files
      (source_size source (normalized_options options).range_mode w.answer)

-- Go's integer division by a positive number.
abbrev quotient : ℤ → ℕ → ℤ
quotient (pos n) d = pos (n / d)
quotient (negsuc n) d = pos 0 -ℤ pos (suc n / d)

-- How many workers `downloadChunks` starts.
unfoldable pub worker_count : ℤ → DownloadOptions → ℤ
worker_count size options =
    let chunks =
      quotient (i64 (i64 (size +ℤ options.chunk_size) -ℤ pos 1)) (pos_part options.chunk_size) in
    if ltb_ℤ options.workers chunks then options.workers else chunks

-- The error of a worker, the caller's context, or a number of bytes that is not the size.
pub data ChunksError (E : Type 0) : Type 0 where
  worker_failed context_ended : E → ChunksError E
  wrong_size : ℤ → ℤ → ChunksError E

unfoldable pub chunks_error : {E : Type 0} → Option E → Option E → ℤ → ℤ → Option (ChunksError E)
chunks_error (some e) context downloaded size = some (worker_failed e)
chunks_error none (some e) downloaded size = some (context_ended e)
chunks_error none none downloaded size =
    if eq_ℤ downloaded size then none else some (wrong_size downloaded size)

module _ {E : Type 0} (w : FileWorld E) (output : Str) (files : Map (List ℕ)) where
  abbrev part : Str
  part = output ++ part_suffix

  append_longer : (s : Str) → str_eq s (s ++ part_suffix) ≡ false
  unfolding str_eq
  append_longer [] = refl
  append_longer (c ∷ s) = ground (arith, append_longer s)

  -- How the file system stands after the download.
  abbrev pub FileOutcome : Map (List ℕ) × Option (FileFailure E) → Type 0
  FileOutcome (after, none) =
      (size : ℤ) × ((w.chunks size).1 ≡ none)
      × (get output after ≡ some (w.chunks size).0)
      × (get part after ≡ none)
      × ((j : Str) → str_eq output j ≡ false → str_eq part j ≡ false → get j after ≡ get j files)
  FileOutcome (after, some e) = (j : Str) → str_eq part j ≡ false → get j after ≡ get j files

  cleared : Map (List ℕ)
  cleared = put part [] (remove_file w.removes_old part files)

  get-cleared : (j : Str) → str_eq part j ≡ false → get j cleared ≡ get j files
  unfolding cleared
  get-cleared j n = rw (get-put, n) (remove_file-other w.removes_old part files j n)

  get-dropped : (j : Str) → str_eq part j ≡ false → get j (delete part cleared) ≡ get j files
  get-dropped j n = rw (get-delete j part cleared, n) (get-cleared j n)

  get-unfinished :
      (j : Str) → str_eq part j ≡ false → get j (remove_file w.removes_old part files) ≡ get j files
  get-unfinished j n = remove_file-other w.removes_old part files j n

  fill_ok :
      (size : ℤ) (content : List ℕ)
      → fill_file w size ≡ ok content
      → ((w.chunks size).1 ≡ none) × ((w.chunks size).0 ≡ content)
  unfolding fill_file
  fill_ok size content q = elim (Bool-cases (not w.truncates)) [
    | inl y ↦ absurd (cc (rw y at q))
    | inr n ↦ elim (Option-cases (w.chunks size).1) [
      | inr (e, c) ↦ absurd (cc (rw (n, c) at q))
      | inl c ↦ elim (Bool-cases (not w.closes)) [
        | inl y ↦ absurd (cc (rw (n, c, y) at q))
        | inr m ↦ elim (Bool-cases w.renames) [
          | inl y ↦ (c, cc (rw (n, c, m, y) at q))
          | inr k ↦ absurd (cc (rw (n, c, m, k) at q))
        ]
      ]
    ]
  ]

  committed :
      (size : ℤ) (result : Result (FileFailure E) (List ℕ))
      → fill_file w size ≡ result
      → FileOutcome (commit_file w.removes_part output cleared result)
  unfolding commit_file
  committed size (err e) q =
      λ j n. remove_file-other w.removes_part part cleared j n ∙ get-cleared j n
  committed size (ok content) q = (
    size,
    (fill_ok size content q).0,
    rw (get-put output output content (delete part cleared), str_eq_refl output)
        (ap some (sym (fill_ok size content q).1)),
    rw (get-put part output content (delete part cleared), append_longer output)
        (rw (get-delete part part cleared, str_eq_refl part) refl),
    λ j m n. rw (get-put j output content (delete part cleared), m) (get-dropped j n),
  )

  sized : (size : Result DownloadError ℤ) → FileOutcome (download_sized w output files size)
  unfolding download_sized cleared
  sized (err e) = λ j n. refl
  sized (ok size) = elim (Bool-cases w.opens) [
    | inl y ↦ rw y (committed size (fill_file w size) refl)
    | inr n ↦ rw n (λ j m. get-unfinished j m)
  ]

  -- A download that ends without an error has put what its chunks have made, for some size and
  -- without an error, in place of the output, and the partial file is gone; one that fails leaves the
  -- output as it was. No file changes but the output and the partial one.
  pub download_file-Outcome :
      (source : Source) (options : DownloadOptions)
      → FileOutcome (download_file w source output options files)
  unfolding download_file
  download_file-Outcome source options =
      sized (source_size source (normalized_options options).range_mode w.answer)
