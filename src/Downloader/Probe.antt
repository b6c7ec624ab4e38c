-- ===== src/Downloader/Probe.antt =====
-- internal/downloader/probe.go and the head of `DownloadFile` in range_downloader.go: the size of a
-- source. `answer` is what client.Do gives for the first byte of the source.
use type_type_downloader.Prelude.{
  Option, [], arith, false, if◌then◌else◌, none, not, refl, some, true, ℕ, ◌&&◌, ◌++◌, ◌<◌, ◌==◌,
  ◌^◌, ◌||◌, ◌∷◌, ◌≡◌, ◌≤◌,
}
use type_type_downloader.Downloader.{Source}
use type_type_downloader.Downloader.Copying.{
  DownloadError, invalid_source, missing_content_length, request_failed, unexpected_content_range,
  unexpected_status,
}
use type_type_downloader.Downloader.Fetch.{Answer}
use type_type_downloader.Prelude.Decimal.{atoi, atoi-decimal, decimal, decimal_starts}
use type_type_downloader.Prelude.Int.{eq_ℤ, ltb_ℤ, pos, ℤ}
use type_type_downloader.Prelude.Result.{Result, err, ok}
use type_type_downloader.Prelude.Text.{Str, is_empty, lit, str_eq}

-- strings.Cut at "/": what stands behind the first one.
unfoldable pub behind_slash : Str → Option Str
behind_slash [] = none
behind_slash (c ∷ s) = let later = behind_slash s in if c == 47 then some s else later

abbrev positive_size : Str → Option ℤ → Result DownloadError ℤ
positive_size value none = err (unexpected_content_range value)
positive_size value (some size) =
    if ltb_ℤ (pos 0) size then ok size else err (unexpected_content_range value)

unfoldable pub parse_content_range_size : Str → Result DownloadError ℤ
parse_content_range_size value = elim (behind_slash value) [
  | none ↦ err (unexpected_content_range value)
  | some total ↦
      if is_empty total || str_eq total (lit "*")
      then err (unexpected_content_range value)
      else positive_size value (atoi total)
]

unfoldable pub probe_source_size : Str → Answer → Result DownloadError ℤ
unfolding parse_content_range_size
probe_source_size mode none = err request_failed
probe_source_size mode (some response) =
    if str_eq mode (lit "header") && eq_ℤ response.status (pos 206)
    then parse_content_range_size response.content_range
    else if not (eq_ℤ response.status (pos 200))
    then err (unexpected_status response.status)
    else if ltb_ℤ (pos 0) response.content_length
    then ok response.content_length
    else err missing_content_length

-- The size that `DownloadFile` goes on with.
unfoldable pub source_size : Source → Str → Answer → Result DownloadError ℤ
unfolding probe_source_size
source_size source mode answer =
    if is_empty source.url
    then err invalid_source
    else if ltb_ℤ (pos 0) source.size
    then ok source.size
    else probe_source_size mode answer

abbrev pub LacksSlash : Str → Type 0
LacksSlash [] = Unit
LacksSlash (c ∷ s) = ((c == 47) ≡ false) × LacksSlash s

behind_slash_lem :
    (prefix total : Str) → LacksSlash prefix → behind_slash (prefix ++ 47 ∷ total) ≡ some total
unfolding behind_slash
behind_slash_lem [] total h = refl
behind_slash_lem (c ∷ s) total (other, h) = rw other (behind_slash_lem s total h)

plain_number :
    (total : Str) (c : ℕ) (s : Str)
    → total ≡ c ∷ s
    → 48 ≤ c
    → (is_empty total || str_eq total (lit "*")) ≡ false
unfolding str_eq
plain_number total c s e h = let other : (c == 42) ≡ false = ground arith in rw (e, other) refl

-- The probe reads back the size from a Content-Range: any text without a slash, a slash, and the size
-- in decimal, if it is a positive int64.
pub parse_content_range_size-decimal :
    (prefix : Str) (n : ℕ)
    → LacksSlash prefix
    → 0 < n
    → n < 2 ^ 63
    → parse_content_range_size (prefix ++ 47 ∷ decimal (pos n)) ≡ ok (pos n)
unfolding parse_content_range_size
parse_content_range_size-decimal prefix n lacks positive fits =
    let (c, s, same, digit) = decimal_starts n in
    let plain = plain_number (decimal (pos n)) c s same digit in
    let size : ltb_ℤ (pos 0) (pos n) ≡ true = ground arith in
    rw
      (
        behind_slash_lem prefix (decimal (pos n)) lacks,
        parse_content_range_size,
        plain,
        atoi-decimal n fits,
        size,
      )
      refl
