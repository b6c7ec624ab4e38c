-- ===== src/Artifact.antt =====
-- internal/artifact/paths.go, store.go and local.go: where the files of a job lie, and the store that
-- keeps artifacts on the local disk. `clean` is path/filepath.Clean, which filepath.Join applies to
-- the joined text.
pub mod Names
use mathlib.Core.List.{reverse}
use type_type_downloader.Prelude.{
  Bool, List, Option, [], false, if◌then◌else◌, leb, none, not, refl, some, ℕ, ◌&&◌, ◌++◌, ◌==◌,
  ◌||◌, ◌∷◌, ◌≡◌,
}
use type_type_downloader.Prelude.Text.{
  Str, is_empty, lit, str_eq, trim_left, trim_right, trim_space,
}

pub record Paths : Type 0 where
  pub work_dir : Str
  pub video : Str
  pub audio : Str
  pub output : Str
  pub key : Str
  pub name : Str

-- `expires` is none for the zero time.
pub record Saved : Type 0 where
  pub backend : Str
  pub location : Str
  pub expires : Option ℕ

abbrev pub is_alphanumeric : ℕ → Bool
is_alphanumeric r =
    (leb b'a' r && leb r b'z') || (leb b'A' r && leb r b'Z') || (leb b'0' r && leb r b'9')

abbrev pub is_mark : ℕ → Bool
is_mark r = r == b'-' || r == b'_' || r == b'.'

-- Whether the builder ends in something that `_` may stand behind; `built` is its content, from the
-- end.
abbrev pub may_join : Str → Bool
may_join [] = false
may_join (last ∷ built) = not (last == b'_')

-- One round of the loop of `SafeName`.
unfoldable pub write_rune : Str → ℕ → Str
write_rune built r =
    if is_alphanumeric r
    then r ∷ built
    else if is_mark r
    then r ∷ built
    else if may_join built
    then b'_' ∷ built
    else built

unfoldable pub write_runes : Str → Str → Str
unfolding write_rune
write_runes built [] = built
write_runes built (r ∷ value) = write_runes (write_rune built r) value

abbrev pub is_edge : ℕ → Bool
is_edge r = r == b'_' || r == b'.'

-- strings.Trim
unfoldable pub trim : (ℕ → Bool) → Str → Str
unfolding trim_left trim_right
trim p s = trim_right p (trim_left p s)

unfoldable pub safe_name : Str → Str
unfolding write_runes trim
safe_name value =
    let value' = trim_space value in
    if is_empty value' then [] else trim is_edge (reverse (write_runes [] value'))

unfoldable pub audio_ext : Str → Str
audio_ext container = if str_eq container (lit "webm") then lit "webm" else lit "m4a"

abbrev or_id : Str → Str → Str
or_id name job_id = if is_empty name then job_id else name

-- strings.Join at `/`
unfoldable pub join_slash : List Str → Str
join_slash [] = []
join_slash (element ∷ []) = element
join_slash (element ∷ next ∷ rest) = element ++ b'/' ∷ join_slash (next ∷ rest)

module _ (clean : Str → Str) where
  -- `filepath.Join` leaves out the empty elements at the front.
  unfoldable pub file_join : List Str → Str
  unfolding join_slash
  file_join [] = []
  file_join (element ∷ rest) =
      let later = file_join rest in
      if is_empty element then later else clean (join_slash (element ∷ rest))

  unfoldable pub build : Str → Str → Str → Str → Paths
  unfolding safe_name audio_ext file_join
  build data_dir job_id title container =
      let name = or_id (safe_name title) job_id in
      let file_name = name ++ b'.' ∷ container in
      let work_dir = file_join (data_dir ∷ lit "jobs" ∷ job_id ∷ []) in
      record {
        work_dir = work_dir;
        video = file_join (work_dir ∷ (lit "video." ++ container) ∷ []);
        audio = file_join (work_dir ∷ (lit "audio." ++ audio_ext container) ∷ []);
        output = file_join (data_dir ∷ lit "artifacts" ∷ job_id ∷ file_name ∷ []);
        key = lit "artifacts/" ++ (job_id ++ b'/' ∷ file_name);
        name = file_name;
      }

-- LocalStore
unfoldable pub save_local : Str → Str → Saved
save_local local_path object_key = record {
  backend = lit "local";
  location = local_path;
  expires = none;
}

-- What os.Stat and os.Remove answer about a path; `not_exist` is os.IsNotExist.
pub record FileError : Type 0 where
  pub not_exist : Bool
  pub message : Str

-- The path that os.Remove is called with, and the error.
unfoldable pub delete_local : (Str → Option FileError) → Saved → Option Str × Option FileError
delete_local os_remove saved =
    if is_empty saved.location then (none, none) else elim (os_remove saved.location) [
      | none ↦ (some saved.location, none)
      | some e ↦ (some saved.location, if e.not_exist then none else some e)
    ]

-- Serves the file unless os.Stat fails.
unfoldable pub serve_local : (Str → Option FileError) → Saved → Option FileError
serve_local os_stat saved = os_stat saved.location

makes_name : safe_name (lit "  ../My Video: part #1. ") ≡ lit "My_Video_part_1"
unfolding safe_name trim_space
makes_name = refl
