-- ===== src/Prelude/Text.antt =====
-- Go's `string` and the parts of package `strings` that the program uses. A text is the list of its
-- code points; a program text compares, trims and searches by whole code points.
use Prim.Native.Char.{code}
use Prim.Native.String.{String}
use mathlib.Core.List.{reverse}
use type_type_downloader.Prelude.{
  Bool, List, Option, [], arith, false, if◌then◌else◌, is_some, leb, map, none, refl, some, true, ℕ,
  ◌&&◌, ◌++◌, ◌+◌, ◌==◌, ◌||◌, ◌↔◌, ◌∷◌, ◌≡◌,
}

abbrev pub Str : Type 0
Str = List ℕ

-- A text literal.
abbrev pub lit : String → Str
lit String.[] = []
lit (String.◌∷◌ c s) = code c ∷ lit s

unfoldable pub str_eq : Str → Str → Bool
str_eq [] [] = true
str_eq [] (d ∷ t) = false
str_eq (c ∷ s) [] = false
str_eq (c ∷ s) (d ∷ t) = c == d && str_eq s t

pub str_eq_iff : (s t : Str) → (str_eq s t ≡ true) ↔ (s ≡ t)
unfolding str_eq
str_eq_iff [] [] = (λ _. refl, λ _. refl)
str_eq_iff [] (d ∷ t) = (λ e. cc, λ e. cc)
str_eq_iff (c ∷ s) [] = (λ e. cc, λ e. cc)
str_eq_iff (c ∷ s) (d ∷ t) = ground (arith, str_eq_iff s t)

pub str_eq_refl : (s : Str) → str_eq s s ≡ true
str_eq_refl s = (str_eq_iff s s).1 refl

pub str_eq-false_comm : (s t : Str) → str_eq s t ≡ false → str_eq t s ≡ false
str_eq-false_comm s t e = ground (arith, str_eq_iff s t, str_eq_iff t s)

abbrev pub is_empty : Str → Bool
is_empty [] = true
is_empty (c ∷ s) = false

-- unicode.IsSpace
abbrev pub is_space : ℕ → Bool
is_space c =
    (leb 9 c && leb c 13)
    || c == 32
    || c == 0x85
    || c == 0xa0
    || c == 0x1680
    || (leb 0x2000 c && leb c 0x200a)
    || c == 0x2028
    || c == 0x2029
    || c == 0x202f
    || c == 0x205f
    || c == 0x3000

-- strings.TrimLeftFunc and TrimRightFunc.
unfoldable pub trim_left : (ℕ → Bool) → Str → Str
trim_left p [] = []
trim_left p (c ∷ s) = if p c then trim_left p s else c ∷ s

unfoldable pub trim_right : (ℕ → Bool) → Str → Str
unfolding trim_left
trim_right p s = reverse (trim_left p (reverse s))

-- strings.TrimSpace
unfoldable pub trim_space : Str → Str
unfolding trim_left trim_right
trim_space s = trim_right is_space (trim_left is_space s)

-- strings.ToLower, over unicode.ToLower of one code point.
unfoldable pub to_lower : (ℕ → ℕ) → Str → Str
to_lower lower s = map lower s

-- unicode.ToLower on ASCII.
abbrev pub ascii_lower : ℕ → ℕ
ascii_lower c = if leb b'A' c && leb c b'Z' then c + 32 else c

-- strings.HasPrefix, with what stands behind the prefix.
unfoldable pub cut_prefix : Str → Str → Option Str
cut_prefix s [] = some s
cut_prefix [] (d ∷ t) = none
cut_prefix (c ∷ s) (d ∷ t) = if c == d then cut_prefix s t else none

unfoldable pub has_prefix : Str → Str → Bool
unfolding cut_prefix
has_prefix s prefix = is_some (cut_prefix s prefix)

-- strings.Contains
unfoldable pub contains : Str → Str → Bool
unfolding has_prefix
contains [] t = is_empty t
contains (c ∷ s) t = has_prefix (c ∷ s) t || contains s t

trims : trim_space (lit " \tmp4 \n") ≡ lit "mp4"
unfolding trim_space
trims = refl

finds : contains (lit "video/mp4; codecs") (lit "mp4") ≡ true
unfolding contains
finds = refl

unfoldable pub has_suffix : Str → Str → Bool
has_suffix [] suffix = is_empty suffix
has_suffix (c ∷ s) suffix = let rest = has_suffix s suffix in str_eq (c ∷ s) suffix || rest

-- strings.Split at one code point: `current` is the piece that is being read, from its end.
unfoldable pub split_from : ℕ → Str → Str → List Str
split_from sep current [] = reverse current ∷ []
split_from sep current (c ∷ s) =
    let ended = split_from sep [] s in
    let longer = split_from sep (c ∷ current) s in
    if c == sep then reverse current ∷ ended else longer

pub str_eq_append : (p s t : Str) → str_eq (p ++ s) (p ++ t) ≡ str_eq s t
unfolding str_eq
str_eq_append [] s t = refl
str_eq_append (c ∷ p) s t = ground (arith, str_eq_append p s t)

pub str_eq-longer : (p : Str) (c : ℕ) (s : Str) → str_eq (p ++ c ∷ s) p ≡ false
unfolding str_eq
str_eq-longer [] c s = refl
str_eq-longer (d ∷ p) c s = ground (arith, str_eq-longer p c s)

-- Neither text starts with the other.
unfoldable pub diverge : Str → Str → Bool
diverge [] t = false
diverge (c ∷ s) [] = false
diverge (c ∷ s) (d ∷ t) = if c == d then diverge s t else true

pub diverge_comm : (p q : Str) → diverge p q ≡ true → diverge q p ≡ true
unfolding diverge
diverge_comm [] q e = absurd (cc e)
diverge_comm (c ∷ p) [] e = absurd (cc e)
diverge_comm (c ∷ p) (d ∷ q) e = ground (arith, diverge_comm p q)

pub str_eq-diverge : (p q s t : Str) → diverge p q ≡ true → str_eq (p ++ s) (q ++ t) ≡ false
unfolding diverge str_eq
str_eq-diverge [] q s t e = absurd (cc e)
str_eq-diverge (c ∷ p) [] s t e = absurd (cc e)
str_eq-diverge (c ∷ p) (d ∷ q) s t e = ground (arith, str_eq-diverge p q s t)

-- The same against the second text itself.
pub str_eq-diverge_alone : (p q s : Str) → diverge p q ≡ true → str_eq (p ++ s) q ≡ false
unfolding diverge str_eq
str_eq-diverge_alone [] q s e = absurd (cc e)
str_eq-diverge_alone (c ∷ p) [] s e = absurd (cc e)
str_eq-diverge_alone (c ∷ p) (d ∷ q) s e = ground (arith, str_eq-diverge_alone p q s)

pub differ-diverge : (p q : Str) → diverge p q ≡ true → str_eq p q ≡ false
unfolding diverge str_eq
differ-diverge [] q e = absurd (cc e)
differ-diverge (c ∷ p) [] e = absurd (cc e)
differ-diverge (c ∷ p) (d ∷ q) e = ground (arith, differ-diverge p q)
