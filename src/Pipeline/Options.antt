-- ===== src/Pipeline/Options.antt =====
-- internal/pipeline/options.go: the selector's options of a job.
use mathlib.Core.Option
use type_type_downloader.Prelude.{
  Bool, List, Option, [], arith, false, if◌then◌else◌, none, refl, some, true, ℕ, ◌||◌, ◌∷◌, ◌≡◌,
}
use type_type_downloader.Job.{JobOptions}
use type_type_downloader.Prelude.Decimal.{atoi}
use type_type_downloader.Prelude.Int.{ltb_ℤ, pos, ℤ}
use type_type_downloader.Prelude.Text.{Str, is_empty, lit, str_eq, to_lower, trim_space}
use type_type_downloader.Selector.{SelectorOptions, default_to, mp4, with_defaults}

unfoldable pub parse_itag : Str → ℤ
parse_itag value = Option.get_or (atoi (trim_space value)) (pos 0)

abbrev one_of : Str → List Str → Bool
one_of s [] = false
one_of s (t ∷ rest) = str_eq s t || one_of s rest

abbrev known_prefix : Str → Str
known_prefix codec =
    if one_of codec (lit "h264" ∷ lit "x264" ∷ [])
    then lit "avc1"
    else if one_of codec (lit "h265" ∷ lit "hevc" ∷ lit "x265" ∷ [])
    then lit "hev1"
    else if str_eq codec (lit "av1")
    then lit "av01"
    else if str_eq codec (lit "aac")
    then lit "mp4a"
    else codec

unfoldable pub codec_prefix : (ℕ → ℕ) → Str → Str
codec_prefix lower value = known_prefix (to_lower lower (trim_space value))

abbrev or_else : Str → Str → Str
or_else value fallback = if is_empty value then fallback else value

abbrev pub height_of : Option ℤ → ℤ
height_of none = pos 1080
height_of (some height) = if ltb_ℤ (pos 0) height then height else pos 1080

unfoldable pub selector_options : (ℕ → ℕ) → JobOptions → SelectorOptions
unfolding codec_prefix parse_itag
selector_options lower options = record {
  container =
      or_else (or_else (trim_space options.container) (trim_space options.format)) (lit "mp4");
  max_height = height_of options.height;
  video_codec_prefix = codec_prefix lower options.video_codec;
  audio_codec_prefix = codec_prefix lower options.audio_codec;
  video_itag = parse_itag options.video_itag;
  audio_itag = parse_itag options.audio_itag;
}

unfoldable pub is_audio_only : (ℕ → ℕ) → JobOptions → Bool
is_audio_only lower options = str_eq (trim_space (to_lower lower options.mode)) (lit "audio")

or_else_full :
    (value fallback : Str) → is_empty fallback ≡ false → is_empty (or_else value fallback) ≡ false
or_else_full value fallback f = ground arith

height_of-positive : (height : Option ℤ) → ltb_ℤ (pos 0) (height_of height) ≡ true
height_of-positive none = refl
height_of-positive (some height) = ground arith

default_to-full :
    (value fallback : Str) → is_empty value ≡ false → default_to value fallback ≡ value
unfolding default_to
default_to-full value fallback f = rw f refl

with_defaults-full :
    (options : SelectorOptions)
    → is_empty options.container ≡ false
    → ltb_ℤ (pos 0) options.max_height ≡ true
    → ((with_defaults options).container ≡ options.container)
      × ((with_defaults options).max_height ≡ options.max_height)
unfolding with_defaults
with_defaults-full options full high = (default_to-full options.container mp4 full, rw high refl)

-- A job's options give a container and a positive height, and the selector's defaults change
-- neither.
pub selector_options-defaults :
    (lower : ℕ → ℕ) (options : JobOptions)
    → ((with_defaults (selector_options lower options)).container
        ≡ (selector_options lower options).container)
      × ((with_defaults (selector_options lower options)).max_height
          ≡ (selector_options lower options).max_height)
      × (ltb_ℤ (pos 0) (selector_options lower options).max_height ≡ true)
unfolding selector_options
selector_options-defaults lower options =
    let high = height_of-positive options.height in
    let full =
      or_else_full (or_else (trim_space options.container) (trim_space options.format)) (lit "mp4")
        refl in
    let kept = with_defaults-full (selector_options lower options) full high in
    (kept.0, kept.1, high)
