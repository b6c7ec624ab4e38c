-- ===== src/Selector/Promise.antt =====
-- What `SelectMP4WithOptions` and `SelectAudioOnly` of internal/selector/selector.go promise for the
-- options that they are given.
use type_type_downloader.Prelude.{arith, false, none, some, true, ℕ, ◌≡◌, ◌⊎◌}
use type_type_downloader.Prelude.Int.{ltb_ℤ, pos}
use type_type_downloader.Prelude.Result.{Result, err, ok}
use type_type_downloader.Prelude.Text.{Str, contains, has_prefix, is_empty, lit, str_eq, to_lower}
use type_type_downloader.Selector.{
  AudioSelection, SelectError, Selection, SelectorOptions, audio_only_options, audio_options,
  audio_output_container, codec_matches, eligible_audio, eligible_video, no_audio, no_mp4_audio,
  no_video, output_container, playable, playable_audio, playable_video, select_audio_only,
  select_mp4_with_options, string_value, with_defaults,
}
use type_type_downloader.Selector.Choice.{
  AudioChoice, BestAudio, BestVideo, Mp4Choice, select_audio_only-Choice,
  select_mp4_with_options-Choice,
}
use type_type_downloader.Selector.Defaults.{
  AudioDefaulted, Defaulted, GoesWith, audio_only_options-AudioDefaulted, audio_options-GoesWith,
  with_defaults-Defaulted,
}
use type_type_downloader.Typetype.{AudioStreamItem, StreamResponse, VideoStreamItem}

-- What a video stream that is selected has.
pub record VideoPasses (lower : ℕ → ℕ) (wanted : SelectorOptions) (v : VideoStreamItem)
    : Type 0 where
  pub asked_itag : ltb_ℤ (pos 0) wanted.video_itag ≡ true → v.itag ≡ wanted.video_itag
  pub has_codec :
      is_empty (string_value v.codec) ≡ false
      → has_prefix
          (to_lower lower (string_value v.codec))
          (to_lower lower wanted.video_codec_prefix)
        ≡ true
  pub has_type : contains v.mime_type wanted.container ≡ true
  pub low_enough : ltb_ℤ (pos 0) wanted.max_height ≡ true → ltb_ℤ wanted.max_height v.height ≡ false
  pub has_address :
      (is_empty v.url ≡ false)
      ⊎ ((str_eq v.delivery_method (lit "sabr") ≡ true) × (is_empty v.manifest_url ≡ false))

pub record AudioPasses (lower : ℕ → ℕ) (wanted : SelectorOptions) (a : AudioStreamItem)
    : Type 0 where
  pub asked_itag : ltb_ℤ (pos 0) wanted.audio_itag ≡ true → a.itag ≡ wanted.audio_itag
  pub has_codec :
      is_empty (string_value a.codec) ≡ false
      → has_prefix
          (to_lower lower (string_value a.codec))
          (to_lower lower wanted.audio_codec_prefix)
        ≡ true
  pub has_type : contains a.mime_type wanted.container ≡ true
  pub has_address :
      (is_empty a.url ≡ false)
      ⊎ ((str_eq a.delivery_method (lit "sabr") ≡ true) × (is_empty a.manifest_url ≡ false))

eligible-VideoPasses :
    (lower : ℕ → ℕ) (wanted : SelectorOptions) (v : VideoStreamItem)
    → eligible_video lower wanted v ≡ true
    → VideoPasses lower wanted v
unfolding eligible_video playable_video playable codec_matches
eligible-VideoPasses lower wanted v h = record {
  asked_itag = λ i. ground arith;
  has_codec = λ i. ground arith;
  has_type = ground arith;
  low_enough = λ i. ground arith;
  has_address = ground arith;
}

eligible-AudioPasses :
    (lower : ℕ → ℕ) (wanted : SelectorOptions) (a : AudioStreamItem)
    → eligible_audio lower wanted a ≡ true
    → AudioPasses lower wanted a
unfolding eligible_audio playable_audio playable codec_matches
eligible-AudioPasses lower wanted a h = record {
  asked_itag = λ i. ground arith;
  has_codec = λ i. ground arith;
  has_type = ground arith;
  has_address = ground arith;
}

module _ (lower : ℕ → ℕ) (stream : StreamResponse) where
  -- What follows from the options as they are wanted.
  abbrev pub Mp4From : SelectorOptions → Result SelectError Selection → Type 0
  Mp4From wanted (ok s) =
      (s.title ≡ stream.title)
      × BestVideo lower stream wanted (some s.video)
      × VideoPasses lower wanted s.video
      × ((audio : SelectorOptions) × GoesWith s.video wanted audio s.container
          × BestAudio lower stream audio (some s.audio)
          × AudioPasses lower audio s.audio)
  Mp4From wanted (err (no_video codec)) =
      BestVideo lower stream wanted none × (codec ≡ wanted.video_codec_prefix)
  Mp4From wanted (err (no_mp4_audio codec)) =
      (video : VideoStreamItem) × BestVideo lower stream wanted (some video)
      × ((audio : SelectorOptions) × (container : Str) × GoesWith video wanted audio container
          × BestAudio lower stream audio none
          × (codec ≡ audio.audio_codec_prefix))
  Mp4From wanted (err (no_audio codec)) = ⊥

  abbrev pub Mp4Promise : SelectorOptions → Result SelectError Selection → Type 0
  Mp4Promise options r = (wanted : SelectorOptions) × Defaulted options wanted × Mp4From wanted r

  choice-Mp4From :
      (options : SelectorOptions) (r : Result SelectError Selection)
      → Mp4Choice lower stream options r
      → Mp4From (with_defaults options) r
  choice-Mp4From options (ok s) (title, video, audio, container) =
      let wanted = with_defaults options in
      (
        title,
        video,
        eligible-VideoPasses lower wanted s.video video.3,
        (
          audio_options s.video wanted,
          rw container (audio_options-GoesWith s.video wanted),
          audio,
          eligible-AudioPasses lower (audio_options s.video wanted) s.audio audio.3,
        ),
      )
  choice-Mp4From options (err (no_video codec)) c = c
  choice-Mp4From options (err (no_mp4_audio codec)) (video, best, none_passes, same) =
      let wanted = with_defaults options in
      (
        video,
        best,
        (
          audio_options video wanted,
          output_container video wanted,
          audio_options-GoesWith video wanted,
          none_passes,
          same,
        ),
      )
  choice-Mp4From options (err (no_audio codec)) c = c

  -- The options asked for hold, with these defaults for what is left open: mp4, 1080 lines, vp9 and
  -- opus for webm, avc1 and mp4a otherwise. A selection is the best video that passes the tests of
  -- these options, and the best audio for the same options and the same container, or, if the video
  -- comes by SABR, for mp4 and mp4a and with mp4 as the container. An error means that no video, or
  -- for the best video no audio, passes, and carries the codec that was wanted.
  pub select_mp4_with_options-Promise :
      (options : SelectorOptions)
      → Mp4Promise options (select_mp4_with_options lower stream options)
  select_mp4_with_options-Promise options = (
    with_defaults options,
    with_defaults-Defaulted options,
    choice-Mp4From options (select_mp4_with_options lower stream options)
        (select_mp4_with_options-Choice lower stream options),
  )

  abbrev pub AudioFrom : SelectorOptions → Str → Result SelectError AudioSelection → Type 0
  AudioFrom wanted container (ok s) =
      (s.title ≡ stream.title)
      × (s.container ≡ container)
      × BestAudio lower stream wanted (some s.audio)
      × AudioPasses lower wanted s.audio
  AudioFrom wanted container (err (no_audio codec)) =
      BestAudio lower stream wanted none × (codec ≡ wanted.audio_codec_prefix)
  AudioFrom wanted container (err _) = ⊥

  abbrev pub AudioPromise : SelectorOptions → Result SelectError AudioSelection → Type 0
  AudioPromise options r =
      (wanted : SelectorOptions) × (container : Str) × AudioDefaulted lower options wanted container
      × AudioFrom wanted container r

  choice-AudioFrom :
      (options : SelectorOptions) (r : Result SelectError AudioSelection)
      → AudioChoice lower stream options r
      → AudioFrom
          (audio_only_options lower options)
          (audio_output_container lower options.container)
          r
  choice-AudioFrom options (ok s) (title, audio, container) = (
    title,
    container,
    audio,
    eligible-AudioPasses lower (audio_only_options lower options) s.audio audio.3,
  )
  choice-AudioFrom options (err (no_video codec)) c = c
  choice-AudioFrom options (err (no_mp4_audio codec)) c = c
  choice-AudioFrom options (err (no_audio codec)) c = c

  -- Where webm or opus is asked for, in any case and with any space around it, an audio-only selection
  -- is the best audio that passes the tests for webm, by default with opus, and its container is
  -- webm; otherwise it is the best for mp4, by default with mp4a, and its container is m4a. An error
  -- means that no audio passes, and carries the codec that was wanted.
  pub select_audio_only-Promise :
      (options : SelectorOptions) → AudioPromise options (select_audio_only lower stream options)
  select_audio_only-Promise options = (
    audio_only_options lower options,
    audio_output_container lower options.container,
    audio_only_options-AudioDefaulted lower options,
    choice-AudioFrom options (select_audio_only lower stream options)
        (select_audio_only-Choice lower stream options),
  )
