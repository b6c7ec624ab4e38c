-- ===== src/Sabr/PartLaws.antt =====
-- The files and the counter of a part, of internal/sabr/part_files.go and progress.go.
use type_type_downloader.Prelude.{
  Bool-cases, List, [], ap, arith, drop, drop-append_all, false, inl, inr, length, ltb, refl, some,
  sym, ℕ, ◌+◌, ◌<◌, ◌^◌, ◌∙◌, ◌∷◌, ◌≡◌, ◌≤◌,
}
use type_type_downloader.Prelude.Decimal.{decimal, digits, digits-cons, digits-decimal}
use type_type_downloader.Prelude.Int.{pos, ℤ, ◌+ℤ◌, ◌-ℤ◌}
use type_type_downloader.Prelude.Text.{Str, str_eq, str_eq_iff}
use type_type_downloader.Prelude.Words.{i64}
use type_type_downloader.Sabr.Parts.{padded, part_adds, part_path}
use type_type_downloader.Sabr.Progress.{
  Reporter, add_sum, part_add, part_rollback, report_sum, sum_bytes,
}

digits-padded : (n : ℕ) → digits 0 (padded n) ≡ some n
unfolding padded
digits-padded n = elim (Bool-cases (ltb n 10)) [
  | inl y ↦ rw y (digits-zero (decimal (pos n)) ∙ digits-decimal n)
  | inr m ↦ rw m (digits-decimal n)
]
  where
    digits-zero : (s : Str) → digits 0 (48 ∷ s) ≡ digits 0 s
    digits-zero s = digits-cons 0 0 s (omega arith)

part_path-injective : (target : Str) (p q : ℕ) → part_path target p ≡ part_path target q → p ≡ q
unfolding part_path
part_path-injective target p q e =
    let tails = ap (drop (length target)) e in
    let names = rw (drop-append_all, drop-append_all) at tails in
    let numbers : padded p ≡ padded q = ap (drop 15) names in
    let same : some p ≡ some q = sym (digits-padded p) ∙ ap (digits 0) numbers ∙ digits-padded q in
    cc same

-- Different parts of a track have different files, for any number of parts.
pub part_path-distinct :
    (target : Str) (p q : ℕ) → ¬ (p ≡ q) → str_eq (part_path target p) (part_path target q) ≡ false
part_path-distinct target p q differ =
    elim (Bool-cases (str_eq (part_path target p) (part_path target q))) [
      | inl y ↦ absurd (
          differ (
            part_path-injective target p q
              ((str_eq_iff (part_path target p) (part_path target q)).0 y)))
      | inr n ↦ n
    ]

downloaded-add_sum :
    (bytes : ℤ) (now : ℕ) (r : Reporter)
    → (add_sum bytes now r).downloaded ≡ i64 (r.downloaded +ℤ bytes)
unfolding add_sum report_sum sum_bytes
downloaded-add_sum bytes now r = ground arith

abbrev pub counts : List (ℕ × ℕ) → List (ℤ × ℕ)
counts [] = []
counts ((bytes, now) ∷ rest) = (pos bytes, now) ∷ counts rest

abbrev pub total_counts : List (ℕ × ℕ) → ℕ
total_counts [] = 0
total_counts ((bytes, now) ∷ rest) = bytes + total_counts rest

added : (a b : ℕ) → a + b < 2 ^ 63 → i64 (pos a +ℤ pos b) ≡ pos (a + b)
unfolding ◌+ℤ◌ i64
added a b h = ground arith

nothing : (a : ℕ) → a ≡ a + 0
nothing a = omega arith

regroup : (a b c : ℕ) → a + b + c ≡ a + (b + c)
regroup a b c = omega arith

part_adds-counts :
    (adds : List (ℕ × ℕ)) (c d : ℕ) (counted : ℤ) (r : Reporter)
    → counted ≡ pos c
    → r.downloaded ≡ pos d
    → c ≤ d
    → d + total_counts adds < 2 ^ 63
    → ((part_adds (counts adds) (counted, r)).0 ≡ pos (c + total_counts adds))
      × ((part_adds (counts adds) (counted, r)).1.downloaded ≡ pos (d + total_counts adds))
unfolding part_adds part_add
part_adds-counts [] c d counted r e f le h = (e ∙ ap pos (nothing c), f ∙ ap pos (nothing d))
part_adds-counts ((bytes, now) ∷ rest) c d counted r e f le h =
    let (c_all, d_all) =
      part_adds-counts rest (c + bytes) (d + bytes) (i64 (counted +ℤ pos bytes))
        (add_sum (pos bytes) now r) (rw e (added c bytes (omega arith)))
        (downloaded-add_sum (pos bytes) now r ∙ rw f (added d bytes (omega arith))) (omega arith)
        (omega arith) in
    (
      c_all ∙ ap pos (regroup c bytes (total_counts rest)),
      d_all ∙ ap pos (regroup d bytes (total_counts rest)),
    )

taken_back : (c d : ℕ) → d + c < 2 ^ 63 → i64 (pos (d + c) +ℤ i64 (pos 0 -ℤ pos c)) ≡ pos d
unfolding ◌+ℤ◌ ◌-ℤ◌ i64
taken_back c d h = ground arith

-- A part that fails after any additions takes them back: the reporter's sum is what it was before the
-- attempt. The sums are below 2 ^ 63, and no other part adds in between.
pub part_rollback-part_adds :
    (adds : List (ℕ × ℕ)) (d now : ℕ) (r : Reporter)
    → r.downloaded ≡ pos d
    → d + total_counts adds < 2 ^ 63
    → (part_rollback now (part_adds (counts adds) (pos 0, r))).1.downloaded ≡ pos d
unfolding part_rollback
part_rollback-part_adds adds d now r f h =
    let (counted, summed) = part_adds-counts adds 0 d (pos 0) r refl f (omega arith) h in
    let after = part_adds (counts adds) (pos 0, r) in
    let start : 0 + total_counts adds ≡ total_counts adds = omega arith in
    downloaded-add_sum (i64 (pos 0 -ℤ after.0)) now after.1
    ∙ rw (counted, summed, start) (taken_back (total_counts adds) d h)
