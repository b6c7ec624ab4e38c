-- ===== src/Artifact/Names.antt =====
-- The names that `SafeName` of internal/artifact/paths.go makes.
use mathlib.Core.List.{reverse, reverse_aux, reverse-reverse, reverse-append}
use type_type_downloader.Prelude.{
  Bool, Bool-cases, [], ap, arith, false, inl, inr, refl, sym, true, ℕ, ◌++◌, ◌||◌, ◌∙◌, ◌∷◌, ◌≡◌,
}
use type_type_downloader.Artifact.{
  is_alphanumeric, is_edge, is_mark, may_join, safe_name, trim, write_rune, write_runes,
}
use type_type_downloader.Prelude.Text.{Str, is_empty, is_space, trim_left, trim_right, trim_space}

abbrev IsSafe : ℕ → Type 0
IsSafe r = (is_alphanumeric r || is_mark r) ≡ true

abbrev pub AllSafe : Str → Type 0
AllSafe [] = Unit
AllSafe (r ∷ s) = IsSafe r × AllSafe s

-- A text that is empty or starts with a code point that is not trimmed.
abbrev pub StartsOff : (ℕ → Bool) → Str → Type 0
StartsOff p [] = Unit
StartsOff p (r ∷ s) = p r ≡ false

write_rune-AllSafe : (built : Str) (r : ℕ) → AllSafe built → AllSafe (write_rune built r)
unfolding write_rune
write_rune-AllSafe built r h = elim (Bool-cases (is_alphanumeric r)) [
  | inl y ↦ rw y (ground arith, h)
  | inr n ↦ elim (Bool-cases (is_mark r)) [
    | inl y ↦ rw (n, y) (rw n y, h)
    | inr m ↦ elim (Bool-cases (may_join built)) [
      | inl y ↦ rw (n, m, y) (refl, h)
      | inr k ↦ rw (n, m, k) h
    ]
  ]
]

write_runes-AllSafe : (built value : Str) → AllSafe built → AllSafe (write_runes built value)
unfolding write_runes
write_runes-AllSafe built [] h = h
write_runes-AllSafe built (r ∷ value) h =
    write_runes-AllSafe (write_rune built r) value (write_rune-AllSafe built r h)

reverse_aux-AllSafe : (s t : Str) → AllSafe s → AllSafe t → AllSafe (reverse_aux s t)
reverse_aux-AllSafe [] t h k = k
reverse_aux-AllSafe (r ∷ s) t (a, h) k = reverse_aux-AllSafe s (r ∷ t) h (a, k)

reverse-AllSafe : (s : Str) → AllSafe s → AllSafe (reverse s)
reverse-AllSafe s h = reverse_aux-AllSafe s [] h tt

module _ (p : ℕ → Bool) where
  trim_left-AllSafe : (s : Str) → AllSafe s → AllSafe (trim_left p s)
  unfolding trim_left
  trim_left-AllSafe [] h = tt
  trim_left-AllSafe (r ∷ s) h = elim (Bool-cases (p r)) [
    | inl y ↦ rw y (trim_left-AllSafe s h.1)
    | inr n ↦ rw n h
  ]

  trim_left-StartsOff : (s : Str) → StartsOff p (trim_left p s)
  unfolding trim_left
  trim_left-StartsOff [] = tt
  trim_left-StartsOff (r ∷ s) = elim (Bool-cases (p r)) [
    | inl y ↦ rw y (trim_left-StartsOff s)
    | inr n ↦ rw n n
  ]

  pub trim_left_off : (s : Str) → StartsOff p s → trim_left p s ≡ s
  unfolding trim_left
  trim_left_off [] h = refl
  trim_left_off (r ∷ s) h = rw h refl

  trim_left_cuts : (s : Str) → (cut : Str) × (s ≡ cut ++ trim_left p s)
  unfolding trim_left
  trim_left_cuts [] = ([], refl)
  trim_left_cuts (r ∷ s) = elim (Bool-cases (p r)) [
    | inl y ↦ let (cut, e) = trim_left_cuts s in rw y (r ∷ cut, ap (λ t. r ∷ t) e)
    | inr n ↦ rw n ([], refl)
  ]

  prefix-StartsOff : (s t : Str) → StartsOff p (s ++ t) → StartsOff p s
  prefix-StartsOff [] t h = tt
  prefix-StartsOff (r ∷ s) t h = h

  trim_right-StartsOff : (s : Str) → StartsOff p s → StartsOff p (trim_right p s)
  unfolding trim_right
  trim_right-StartsOff s h =
      let (cut, e) = trim_left_cuts (reverse s) in
      let whole : s ≡ reverse (trim_left p (reverse s)) ++ reverse cut =
        sym (reverse-reverse s) ∙ ap reverse e ∙ reverse-append cut (trim_left p (reverse s)) in
      prefix-StartsOff _ _ (rw whole at h)

  pub trim_right_off : (s : Str) → StartsOff p (reverse s) → trim_right p s ≡ s
  unfolding trim_right
  trim_right_off s h = rw (trim_left_off (reverse s) h) (reverse-reverse s)

-- Only letters, digits, `-`, `_` and `.`, and neither `_` nor `.` at an end.
pub record IsName (s : Str) : Type 0 where
  pub safe : AllSafe s
  pub front : StartsOff is_edge s
  pub back : StartsOff is_edge (reverse s)

trim-IsName : (s : Str) → AllSafe s → IsName (trim is_edge s)
unfolding trim trim_right
trim-IsName s h = record {
  safe =
      reverse-AllSafe _
        (trim_left-AllSafe is_edge _ (reverse-AllSafe _ (trim_left-AllSafe is_edge s h)));
  front = trim_right-StartsOff is_edge (trim_left is_edge s) (trim_left-StartsOff is_edge s);
  back =
      rw (reverse-reverse (trim_left is_edge (reverse (trim_left is_edge s))))
        (trim_left-StartsOff is_edge (reverse (trim_left is_edge s)));
}

-- Whatever the title is, its safe name has only ASCII letters, digits, `-`, `_` and `.`, and it
-- neither starts nor ends with `_` or `.`: it has no path separator and is no `.` or `..`.
pub safe_name-IsName : (value : Str) → IsName (safe_name value)
unfolding safe_name
safe_name-IsName value = elim (Bool-cases (is_empty (trim_space value))) [
  | inl y ↦ rw y (record { safe = tt; front = tt; back = tt })
  | inr n ↦ rw n (trim-IsName _ (reverse-AllSafe _ (write_runes-AllSafe [] (trim_space value) tt)))
]

safe_not_space : (r : ℕ) → IsSafe r → is_space r ≡ false
safe_not_space r h = ground arith

AllSafe-StartsOff : (s : Str) → AllSafe s → StartsOff is_space s
AllSafe-StartsOff [] h = tt
AllSafe-StartsOff (r ∷ s) h = safe_not_space r h.0

trim_space_safe : (s : Str) → AllSafe s → trim_space s ≡ s
unfolding trim_space
trim_space_safe s h =
    rw (trim_left_off is_space s (AllSafe-StartsOff s h))
      (trim_right_off is_space s (AllSafe-StartsOff (reverse s) (reverse-AllSafe s h)))

write_runes_safe : (s built : Str) → AllSafe s → write_runes built s ≡ reverse_aux s built
unfolding write_runes write_rune
write_runes_safe [] built h = refl
write_runes_safe (r ∷ s) built (a, h) = elim (Bool-cases (is_alphanumeric r)) [
  | inl y ↦ rw y (write_runes_safe s (r ∷ built) h)
  | inr n ↦ elim (Bool-cases (is_mark r)) [
    | inl y ↦ rw (n, y) (write_runes_safe s (r ∷ built) h)
    | inr m ↦ absurd (ground arith)
  ]
]

name_again : (s : Str) → IsName s → safe_name s ≡ s
unfolding safe_name trim
name_again [] h = unfold trim_space in refl
name_again (r ∷ s) h =
    rw
      (
        trim_space_safe (r ∷ s) h.safe,
        write_runes_safe (r ∷ s) [] h.safe,
        reverse-reverse (r ∷ s),
        trim_left_off is_edge (r ∷ s) h.front,
      )
      (trim_right_off is_edge (r ∷ s) h.back)

-- A safe name is its own safe name.
pub safe_name_again : (value : Str) → safe_name (safe_name value) ≡ safe_name value
safe_name_again value = name_again (safe_name value) (safe_name-IsName value)
