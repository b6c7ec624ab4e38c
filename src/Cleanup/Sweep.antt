-- ===== src/Cleanup/Sweep.antt =====
-- internal/cleanup/cleaner.go: the sweep over the files of old jobs. `walk` lists what
-- filepath.WalkDir visits, `clean` is path/filepath.Clean. The results are the paths that os.Remove is
-- called with.
use type_type_downloader.Prelude.{
  Bool, Bool-cases, List, Option, Option-cases, [], append-nil, arith, false, if◌then◌else◌, inl,
  inr, ltb, none, refl, some, sym, true, ℕ, ◌++◌, ◌-◌, ◌||◌, ◌∷◌, ◌≡◌, ◌≤◌,
}
use type_type_downloader.Artifact.{file_join}
use type_type_downloader.Prelude.Text.{Str, contains, has_suffix, lit, str_eq}

pub record Entry : Type 0 where
  pub path : Str
  pub has_error : Bool
  pub is_dir : Bool
  pub mod_time : Option ℕ

abbrev pub is_work_file : Str → Bool
is_work_file path =
    has_suffix path (lit ".part") || contains path (lit "/video.") || contains path (lit "/audio.")

unfoldable pub swept_job : ℕ → Entry → Bool
swept_job cutoff entry = if entry.has_error || entry.is_dir then false else elim entry.mod_time [
  | none ↦ false
  | some time ↦ if ltb cutoff time then false else is_work_file entry.path
]

unfoldable pub swept_artifact : ℕ → Entry → Bool
swept_artifact cutoff entry =
    if entry.has_error || entry.is_dir
    then false
    else elim entry.mod_time [ none ↦ false | some time ↦ ltb time cutoff ]

unfoldable pub sweep : (Entry → Bool) → List Entry → List Str
sweep swept [] = []
sweep swept (entry ∷ rest) =
    let later = sweep swept rest in if swept entry then entry.path ∷ later else later

unfoldable pub clean_jobs : ℕ → List Entry → List Str
unfolding sweep swept_job
clean_jobs cutoff entries = sweep (swept_job cutoff) entries

unfoldable pub clean_artifacts : ℕ → List Entry → List Str
unfolding sweep swept_artifact
clean_artifacts cutoff entries = sweep (swept_artifact cutoff) entries

unfoldable pub clean_all : (Str → Str) → (Str → List Entry) → Str → Str → ℕ → ℕ → List Str
unfolding clean_jobs clean_artifacts
clean_all clean walk data_dir storage_backend max_age now =
    let cutoff = now - max_age in
    let jobs = clean_jobs cutoff (walk (file_join clean (data_dir ∷ lit "jobs" ∷ []))) in
    if str_eq storage_backend (lit "s3")
    then jobs ++ clean_artifacts cutoff (walk (file_join clean (data_dir ∷ lit "artifacts" ∷ [])))
    else jobs

-- A file that the sweep may take: one that WalkDir could read, and that is old.
pub record IsOld (cutoff : ℕ) (fits : Str → Bool) (entry : Entry) : Type 0 where
  pub readable : entry.has_error ≡ false
  pub file : entry.is_dir ≡ false
  pub time : ℕ
  pub dated : entry.mod_time ≡ some time
  pub old : time ≤ cutoff
  pub work : fits entry.path ≡ true

-- Each path is that of such a file among the entries.
pub data Among (P : Entry → Type 0) (path : Str) : List Entry → Type 0 where
  first_one :
      (entry : Entry) (rest : List Entry)
      → entry.path ≡ path
      → P entry
      → Among P path (entry ∷ rest)
  later_one : (entry : Entry) (rest : List Entry) → Among P path rest → Among P path (entry ∷ rest)

abbrev pub Each : (Entry → Type 0) → List Entry → List Str → Type 0
Each P entries [] = Unit
Each P entries (path ∷ rest) = Among P path entries × Each P entries rest

Each-later :
    (P : Entry → Type 0) (entry : Entry) (entries : List Entry) (paths : List Str)
    → Each P entries paths
    → Each P (entry ∷ entries) paths
Each-later P entry entries [] h = tt
Each-later P entry entries (path ∷ rest) (a, h) =
    (later_one entry entries a, Each-later P entry entries rest h)

sweep-Each :
    (P : Entry → Type 0) (swept : Entry → Bool)
    → ((entry : Entry) → swept entry ≡ true → P entry)
    → (entries : List Entry) → Each P entries (sweep swept entries)
unfolding sweep
sweep-Each P swept h [] = tt
sweep-Each P swept h (entry ∷ rest) =
    let later = Each-later P entry rest (sweep swept rest) (sweep-Each P swept h rest) in
    elim (Bool-cases (swept entry)) [
      | inl y ↦ rw y (first_one entry rest refl (h entry y), later)
      | inr n ↦ rw n later
    ]

swept_job-IsOld :
    (cutoff : ℕ) (entry : Entry) → swept_job cutoff entry ≡ true → IsOld cutoff is_work_file entry
unfolding swept_job
swept_job-IsOld cutoff entry e = elim (Bool-cases (entry.has_error || entry.is_dir)) [
  | inl y ↦ absurd (cc (rw y at e))
  | inr n ↦ elim (Option-cases entry.mod_time) [
    | inl q ↦ absurd (cc (rw (n, q) at e))
    | inr (time, q) ↦ elim (Bool-cases (ltb cutoff time)) [
      | inl y ↦ absurd (cc (rw (n, q, y) at e))
      | inr m ↦ record {
        readable = ground arith;
        file = ground arith;
        time = time;
        dated = q;
        old = ground arith;
        work = rw (n, q, m) at e;
      }
    ]
  ]
]

any_file : Str → Bool
any_file path = true

swept_artifact-IsOld :
    (cutoff : ℕ) (entry : Entry) → swept_artifact cutoff entry ≡ true → IsOld cutoff any_file entry
unfolding swept_artifact any_file
swept_artifact-IsOld cutoff entry e = elim (Bool-cases (entry.has_error || entry.is_dir)) [
  | inl y ↦ absurd (cc (rw y at e))
  | inr n ↦ elim (Option-cases entry.mod_time) [
    | inl q ↦ absurd (cc (rw (n, q) at e))
    | inr (time, q) ↦ record {
      readable = ground arith;
      file = ground arith;
      time = time;
      dated = q;
      old = let young = rw (n, q) at e in ground arith;
      work = refl;
    }
  ]
]

-- The sweep asks to remove files that it could read and that are not younger than the cutoff: below the
-- directory of the jobs only partial downloads and the files of streams, and other files only below
-- the directory of the artifacts, and only where the artifacts are stored in S3.
pub clean_all-Each :
    (clean : Str → Str) (walk : Str → List Entry) (data_dir storage_backend : Str) (max_age now : ℕ)
    → (jobs : List Str) × (artifacts : List Str) × (clean_all clean walk data_dir storage_backend
          max_age now
        ≡ jobs ++ artifacts)
      × Each
          (IsOld (now - max_age) is_work_file)
          (walk (file_join clean (data_dir ∷ lit "jobs" ∷ [])))
          jobs
      × ((str_eq storage_backend (lit "s3") ≡ false → artifacts ≡ [])
          × Each
              (IsOld (now - max_age) (λ path. true))
              (walk (file_join clean (data_dir ∷ lit "artifacts" ∷ [])))
              artifacts)
unfolding clean_all any_file clean_jobs clean_artifacts
clean_all-Each clean walk data_dir storage_backend max_age now =
    let cutoff = now - max_age in
    let jobs =
      sweep-Each _ (swept_job cutoff) (swept_job-IsOld cutoff)
        (walk (file_join clean (data_dir ∷ lit "jobs" ∷ []))) in
    let artifacts =
      sweep-Each _ (swept_artifact cutoff) (swept_artifact-IsOld cutoff)
        (walk (file_join clean (data_dir ∷ lit "artifacts" ∷ []))) in
    elim (Bool-cases (str_eq storage_backend (lit "s3"))) [
      | inl y ↦ (_, _, rw y refl, jobs, (λ n. absurd (cc (y, n)), artifacts))
      | inr n ↦ (_, [], rw n (sym (append-nil _)), jobs, (λ m. refl, tt))
    ]
