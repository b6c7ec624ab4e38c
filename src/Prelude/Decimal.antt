-- ===== src/Prelude/Decimal.antt =====
-- Decimal numbers of Go's package `strconv`, and of the verb %d of package `fmt`.
use mathlib.Core.Option
use type_type_downloader.Prelude.{
  Bool-cases, Option, [], arith, false, if◌then◌else◌, inl, inr, leb, ltb, none, refl, some, suc,
  true, zero, ℕ, ◌%◌, ◌&&◌, ◌*◌, ◌+◌, ◌-◌, ◌/◌, ◌<◌, ◌==◌, ◌^◌, ◌∙◌, ◌∷◌, ◌≡◌, ◌≤◌,
}
use type_type_downloader.Prelude.Int.{negsuc, pos, ℤ, ◌-ℤ◌}
use type_type_downloader.Prelude.Text.{Str}

-- strconv.Atoi: a sign or none, then decimal digits, as far as an int64 goes.
unfoldable pub digits : ℕ → Str → Option ℕ
digits acc [] = some acc
digits acc (c ∷ s) =
    let rest = digits (acc * 10 + (c - 48)) s in if leb 48 c && leb c 57 then rest else none

abbrev pub some_digits : Str → Option ℕ
some_digits [] = none
some_digits (c ∷ s) = digits 0 (c ∷ s)

abbrev pub up_to : ℕ → Option ℕ → Option ℕ
up_to bound none = none
up_to bound (some n) = if leb n bound then some n else none

unfoldable pub atoi : Str → Option ℤ
unfolding digits
atoi [] = none
atoi (c ∷ s) =
    if c == 45
    then Option.map (λ n. pos 0 -ℤ pos n) (up_to (2 ^ 63) (some_digits s))
    else if c == 43
    then Option.map pos (up_to (2 ^ 63 - 1) (some_digits s))
    else Option.map pos (up_to (2 ^ 63 - 1) (some_digits (c ∷ s)))

-- fmt's %d
unfoldable pub digits_of : ℕ → ℕ → Str → Str
digits_of zero n acc = acc
digits_of (suc fuel) n acc =
    let longer = digits_of fuel (n / 10) ((48 + n % 10) ∷ acc) in
    if ltb n 10 then (48 + n) ∷ acc else longer

unfoldable pub decimal : ℤ → Str
unfolding digits_of
decimal (pos n) = digits_of (suc n) n []
decimal (negsuc n) = 45 ∷ digits_of (suc (suc n)) (suc n) []

pub digits-cons :
    (acc d : ℕ) (rest : Str) → d < 10 → digits acc ((48 + d) ∷ rest) ≡ digits (acc * 10 + d) rest
unfolding digits
digits-cons acc d rest h =
    let low : leb 48 (48 + d) ≡ true = ground arith in
    let high : leb (48 + d) 57 ≡ true = ground arith in
    let same : 48 + d - 48 ≡ d = omega arith in rw (low, high, same) refl

digits-digits_of :
    (fuel n : ℕ) (rest : Str) → n < fuel → digits 0 (digits_of fuel n rest) ≡ digits n rest
unfolding digits_of
digits-digits_of zero n rest h = absurd (omega arith)
digits-digits_of (suc fuel) n rest h = elim (Bool-cases (ltb n 10)) [
  | inl y ↦
      let same : 0 * 10 + n ≡ n = omega arith in
      rw y (digits-cons 0 n rest (ground arith) ∙ rw same refl)
  | inr m ↦
      let more : 10 ≤ n = ground arith in
      let same : n / 10 * 10 + n % 10 ≡ n = omega arith in
      rw (m, digits-digits_of fuel (n / 10) ((48 + n % 10) ∷ rest) (omega arith))
        (digits-cons (n / 10) (n % 10) rest (omega arith) ∙ rw same refl)
]

no_digits : (acc : ℕ) → digits acc [] ≡ some acc
unfolding digits
no_digits acc = refl

-- The text of a number starts with a digit.
starts_with_digit :
    (fuel n : ℕ) (rest : Str)
    → n < fuel
    → (c : ℕ) × (s : Str) × (digits_of fuel n rest ≡ c ∷ s) × (48 ≤ c)
unfolding digits_of
starts_with_digit zero n rest h = absurd (omega arith)
starts_with_digit (suc fuel) n rest h = elim (Bool-cases (ltb n 10)) [
  | inl y ↦ rw y (48 + n, rest, refl, omega arith)
  | inr m ↦
      let more : 10 ≤ n = ground arith in
      rw m (starts_with_digit fuel (n / 10) ((48 + n % 10) ∷ rest) (omega arith))
]

unsigned :
    (c : ℕ) (s : Str)
    → 48 ≤ c
    → atoi (c ∷ s) ≡ Option.map pos (up_to (2 ^ 63 - 1) (digits 0 (c ∷ s)))
unfolding atoi
unsigned c s h =
    let plain : (c == 45) ≡ false = ground arith in
    let no_plus : (c == 43) ≡ false = ground arith in rw (plain, no_plus) refl

-- Atoi reads what %d prints of a number that is an int64.
pub atoi-decimal : (n : ℕ) → n < 2 ^ 63 → atoi (decimal (pos n)) ≡ some (pos n)
unfolding decimal
atoi-decimal n h =
    let (c, s, same, digit) = starts_with_digit (suc n) n [] (omega arith) in
    let within : leb n (2 ^ 63 - 1) ≡ true = ground arith in
    let read : digits 0 (c ∷ s) ≡ some n =
      rw (← same) (digits-digits_of (suc n) n [] (omega arith) ∙ no_digits n) in
    rw (same, unsigned c s digit, read, within) refl

pub decimal_starts : (n : ℕ) → (c : ℕ) × (s : Str) × (decimal (pos n) ≡ c ∷ s) × (48 ≤ c)
unfolding decimal
decimal_starts n = starts_with_digit (suc n) n [] (omega arith)

pub digits-decimal : (n : ℕ) → digits 0 (decimal (pos n)) ≡ some n
unfolding decimal
digits-decimal n = digits-digits_of (suc n) n [] (omega arith) ∙ no_digits n
