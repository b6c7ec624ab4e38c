-- ===== src/Api/Routes.antt =====
-- The paths of internal/api: what `parseJobPath` reads.
use mathlib.Core.List.{reverse, reverse_aux, reverse-append, reverse-cons}
use type_type_downloader.Prelude.{
  List, [], ap, append_assoc, arith, false, refl, some, ℕ, ◌++◌, ◌∙◌, ◌∷◌, ◌≡◌,
}
use type_type_downloader.Api.{job_parts, parse_job_path}
use type_type_downloader.Artifact.{trim}
use type_type_downloader.Artifact.Names.{StartsOff, trim_left_off, trim_right_off}
use type_type_downloader.Prelude.Text.{Str, cut_prefix, is_empty, lit, split_from}
use type_type_downloader.Typetype.Client.{is_slash}

-- A part of a path: not empty, and without a slash.
abbrev pub NoSlash : Str → Type 0
NoSlash [] = Unit
NoSlash (c ∷ s) = (is_slash c ≡ false) × NoSlash s

pub record IsSegment (s : Str) : Type 0 where
  pub full : is_empty s ≡ false
  pub plain : NoSlash s

NoSlash-StartsOff : (s : Str) → NoSlash s → StartsOff is_slash s
NoSlash-StartsOff [] h = tt
NoSlash-StartsOff (c ∷ s) h = h.0

reverse_aux-NoSlash : (s t : Str) → NoSlash s → NoSlash t → NoSlash (reverse_aux s t)
reverse_aux-NoSlash [] t h k = k
reverse_aux-NoSlash (c ∷ s) t (a, h) k = reverse_aux-NoSlash s (c ∷ t) h (a, k)

reverse-NoSlash : (s : Str) → NoSlash s → NoSlash (reverse s)
reverse-NoSlash s h = reverse_aux-NoSlash s [] h tt

-- A text between two ends that are no slashes is not trimmed.
untrimmed : (s : Str) → StartsOff is_slash s → StartsOff is_slash (reverse s) → trim is_slash s ≡ s
unfolding trim
untrimmed s front back = rw (trim_left_off is_slash s front) (trim_right_off is_slash s back)

split_plain : (current s : Str) → NoSlash s → split_from b'/' current s ≡ reverse_aux current s ∷ []
unfolding split_from
split_plain current [] h = refl
split_plain current (c ∷ s) (a, h) = rw a (split_plain (c ∷ current) s h)

split_slash :
    (current s t : Str)
    → NoSlash s
    → split_from b'/' current (s ++ b'/' ∷ t) ≡ reverse_aux current s ∷ split_from b'/' [] t
unfolding split_from
split_slash current [] t h = refl
split_slash current (c ∷ s) t (a, h) = rw a (split_slash (c ∷ current) s t h)

cut_jobs : (s : Str) → cut_prefix (lit "/jobs/" ++ s) (lit "/jobs/") ≡ some s
unfolding cut_prefix
cut_jobs s = refl

joined-StartsOff : (s t : Str) → IsSegment s → NoSlash s → StartsOff is_slash (s ++ t)
joined-StartsOff [] t h k = absurd (ground (arith, h.full))
joined-StartsOff (c ∷ s) t h k = k.0

read_parts :
    (path rest : Str) (parts : List Str)
    → cut_prefix path (lit "/jobs/") ≡ some rest
    → StartsOff is_slash rest
    → StartsOff is_slash (reverse rest)
    → split_from b'/' [] rest ≡ parts
    → parse_job_path path ≡ job_parts parts
unfolding parse_job_path
read_parts path rest parts c front back q = rw (c, untrimmed rest front back, q) refl

id_only : (id : Str) → IsSegment id → job_parts (id ∷ []) ≡ some (id, [])
unfolding job_parts
id_only id h = rw h.full refl

id_and_action : (id action : Str) → IsSegment id → job_parts (id ∷ action ∷ []) ≡ some (id, action)
unfolding job_parts
id_and_action id action h = rw h.full refl

append_full : (s : Str) (c : ℕ) → is_empty (s ++ c ∷ []) ≡ false
append_full [] c = refl
append_full (d ∷ s) c = refl

reverse-IsSegment : (s : Str) → IsSegment s → IsSegment (reverse s)
reverse-IsSegment [] h = h
reverse-IsSegment (c ∷ s) h = record {
  full = rw (reverse-cons c s) (append_full (reverse s) c);
  plain = reverse-NoSlash (c ∷ s) h.plain;
}

reversed_back :
    (id action : Str) → IsSegment action → StartsOff is_slash (reverse (id ++ b'/' ∷ action))
reversed_back id action k =
    let back = reverse-IsSegment action k in
    rw
      (
        reverse-append id (b'/' ∷ action),
        reverse-cons b'/' action,
        append_assoc (reverse action) (b'/' ∷ []) (reverse id),
      )
      (joined-StartsOff (reverse action) (b'/' ∷ reverse id) back back.plain)

-- The path of a job, and that of one of its actions, are read back as the job's id and the action.
pub parse_job_path-print :
    (id action : Str)
    → IsSegment id
    → IsSegment action
    → (parse_job_path (lit "/jobs/" ++ id) ≡ some (id, []))
      × (parse_job_path (lit "/jobs/" ++ (id ++ b'/' ∷ action)) ≡ some (id, action))
parse_job_path-print id action h k = (
  read_parts _ id (id ∷ []) (cut_jobs id) (NoSlash-StartsOff id h.plain)
        (NoSlash-StartsOff (reverse id) (reverse-NoSlash id h.plain)) (split_plain [] id h.plain)
      ∙ id_only id h,
  read_parts _ (id ++ b'/' ∷ action) (id ∷ action ∷ []) (cut_jobs (id ++ b'/' ∷ action))
        (joined-StartsOff id (b'/' ∷ action) h h.plain) (reversed_back id action k)
        (split_slash [] id action h.plain
          ∙ ap (λ parts. id ∷ parts) (split_plain [] action k.plain))
      ∙ id_and_action id action h,
)
