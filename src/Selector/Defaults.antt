-- ===== src/Selector/Defaults.antt =====
-- What `SelectMP4WithOptions` and `SelectAudioOnly` of internal/selector/selector.go make of the options
-- they are given, case by case.
use type_type_downloader.Prelude.{Bool, arith, false, refl, true, ℕ, ◌||◌, ◌≡◌, ◌⊎◌}
use type_type_downloader.Prelude.Int.{ltb_ℤ, pos}
use type_type_downloader.Prelude.Text.{Str, is_empty, lit, str_eq, to_lower, trim_space}
use type_type_downloader.Selector.{
  SelectorOptions, audio_only_options, audio_options, audio_output_container, default_to,
  output_container, with_defaults,
}
use type_type_downloader.Typetype.{VideoStreamItem}

-- The options after the defaults: what was asked for stays.
pub record Defaulted (options wanted : SelectorOptions) : Type 0 where
  pub asked_container : is_empty options.container ≡ false → wanted.container ≡ options.container
  pub no_container : is_empty options.container ≡ true → wanted.container ≡ lit "mp4"
  pub asked_height :
      ltb_ℤ (pos 0) options.max_height ≡ true → wanted.max_height ≡ options.max_height
  pub no_height : ltb_ℤ (pos 0) options.max_height ≡ false → wanted.max_height ≡ pos 1080
  pub asked_video :
      is_empty options.video_codec_prefix ≡ false
      → wanted.video_codec_prefix ≡ options.video_codec_prefix
  pub webm_video :
      is_empty options.video_codec_prefix ≡ true
      → str_eq wanted.container (lit "webm") ≡ true
      → wanted.video_codec_prefix ≡ lit "vp9"
  pub other_video :
      is_empty options.video_codec_prefix ≡ true
      → str_eq wanted.container (lit "webm") ≡ false
      → wanted.video_codec_prefix ≡ lit "avc1"
  pub asked_audio :
      is_empty options.audio_codec_prefix ≡ false
      → wanted.audio_codec_prefix ≡ options.audio_codec_prefix
  pub webm_audio :
      is_empty options.audio_codec_prefix ≡ true
      → str_eq wanted.container (lit "webm") ≡ true
      → wanted.audio_codec_prefix ≡ lit "opus"
  pub other_audio :
      is_empty options.audio_codec_prefix ≡ true
      → str_eq wanted.container (lit "webm") ≡ false
      → wanted.audio_codec_prefix ≡ lit "mp4a"
  pub same_video_itag : wanted.video_itag ≡ options.video_itag
  pub same_audio_itag : wanted.audio_itag ≡ options.audio_itag

pub with_defaults-Defaulted :
    (options : SelectorOptions) → Defaulted options (with_defaults options)
unfolding with_defaults default_to
with_defaults-Defaulted options = record {
  asked_container = λ n. rw n refl;
  no_container = λ e. rw e refl;
  asked_height = λ h. rw h refl;
  no_height = λ h. rw h refl;
  asked_video = λ n. rw n refl;
  webm_video = λ e w. rw (e, w) refl;
  other_video = λ e w. rw (e, w) refl;
  asked_audio = λ n. rw n refl;
  webm_audio = λ e w. rw (e, w) refl;
  other_audio = λ e w. rw (e, w) refl;
  same_video_itag = refl;
  same_audio_itag = refl;
}

-- The options of the audio stream that goes with a video stream, and the container of both.
pub record GoesWith (video : VideoStreamItem) (wanted audio : SelectorOptions) (container : Str)
    : Type 0 where
  pub with_sabr :
      str_eq video.delivery_method (lit "sabr") ≡ true
      → (audio ≡ record wanted { container = lit "mp4"; audio_codec_prefix = lit "mp4a" })
        × (container ≡ lit "mp4")
  pub with_other :
      str_eq video.delivery_method (lit "sabr") ≡ false
      → (audio ≡ wanted) × (container ≡ wanted.container)

pub audio_options-GoesWith :
    (video : VideoStreamItem) (wanted : SelectorOptions)
    → GoesWith video wanted (audio_options video wanted) (output_container video wanted)
unfolding audio_options output_container
audio_options-GoesWith video wanted = record {
  with_sabr = λ e. rw e (refl, refl);
  with_other = λ n. rw n (refl, refl);
}

-- The options of a selection without a video, and its container; `asked` is the container in lower
-- case and with no space around it.
pub record AudioDefaulted (lower : ℕ → ℕ) (options wanted : SelectorOptions) (container : Str)
    : Type 0 where
  pub webm_asked :
      let asked = trim_space (to_lower lower options.container) in
      (str_eq asked (lit "webm") ≡ true) ⊎ (str_eq asked (lit "opus") ≡ true)
      → (container ≡ lit "webm")
        × (wanted.container ≡ lit "webm")
        × (is_empty options.audio_codec_prefix ≡ true → wanted.audio_codec_prefix ≡ lit "opus")
  pub other_asked :
      let asked = trim_space (to_lower lower options.container) in
      str_eq asked (lit "webm") ≡ false
      → str_eq asked (lit "opus") ≡ false
      → (container ≡ lit "m4a")
        × (wanted.container ≡ lit "mp4")
        × (is_empty options.audio_codec_prefix ≡ true → wanted.audio_codec_prefix ≡ lit "mp4a")
  pub asked_audio :
      is_empty options.audio_codec_prefix ≡ false
      → wanted.audio_codec_prefix ≡ options.audio_codec_prefix
  pub same_audio_itag : wanted.audio_itag ≡ options.audio_itag

or_left : (a b : Bool) → (a ≡ true) ⊎ (b ≡ true) → (a || b) ≡ true
or_left a b h = ground arith

audio_only-webm :
    (lower : ℕ → ℕ) (options : SelectorOptions)
    → str_eq (trim_space (to_lower lower options.container)) (lit "webm")
        || str_eq (trim_space (to_lower lower options.container)) (lit "opus")
      ≡ true
    → (audio_output_container lower options.container ≡ lit "webm")
      × ((audio_only_options lower options).container ≡ lit "webm")
      × (is_empty options.audio_codec_prefix ≡ true
          → (audio_only_options lower options).audio_codec_prefix ≡ lit "opus")
unfolding audio_only_options audio_output_container default_to str_eq
audio_only-webm lower options h = rw h (refl, refl, λ e. rw e refl)

audio_only-other :
    (lower : ℕ → ℕ) (options : SelectorOptions)
    → str_eq (trim_space (to_lower lower options.container)) (lit "webm") ≡ false
    → str_eq (trim_space (to_lower lower options.container)) (lit "opus") ≡ false
    → (audio_output_container lower options.container ≡ lit "m4a")
      × ((audio_only_options lower options).container ≡ lit "mp4")
      × (is_empty options.audio_codec_prefix ≡ true
          → (audio_only_options lower options).audio_codec_prefix ≡ lit "mp4a")
unfolding audio_only_options audio_output_container default_to str_eq
audio_only-other lower options a b = rw (a, b) (refl, refl, λ e. rw e refl)

pub audio_only_options-AudioDefaulted :
    (lower : ℕ → ℕ) (options : SelectorOptions)
    → AudioDefaulted lower options
        (audio_only_options lower options)
        (audio_output_container lower options.container)
unfolding audio_only_options default_to
audio_only_options-AudioDefaulted lower options = record {
  webm_asked = λ h. audio_only-webm lower options (or_left _ _ h);
  other_asked = λ a b. audio_only-other lower options a b;
  asked_audio = λ n. rw n refl;
  same_audio_itag = refl;
}
