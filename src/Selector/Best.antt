-- ===== src/Selector/Best.antt =====
-- What `selectVideo` and `selectAudio` of internal/selector/selector.go return.
use type_type_downloader.Prelude.{
  Bool, Bool-cases, List, Option, [], ap, arith, false, if◌then◌else◌, inl, inr, none, refl, some,
  sym, true, ℕ, ◌&&◌, ◌+◌, ◌<◌, ◌^◌, ◌||◌, ◌≡◌,
}
use type_type_downloader.Prelude.Int.{eq_ℤ, ltb_ℤ, pos, ℤ, ◌+ℤ◌}
use type_type_downloader.Prelude.Text.{Str, str_eq, str_eq_iff, str_eq_refl}
use type_type_downloader.Prelude.Words.{i64}
use type_type_downloader.Selector.{
  SelectorOptions, audio_rank, better_audio, better_video, eligible_audio, eligible_video,
  same_track, select_audio, select_video, stream_bitrate,
}
use type_type_downloader.Selector.Pick.{Best, IsStrictOrder, pick-Best}
use type_type_downloader.Typetype.{AudioStreamItem, VideoStreamItem}

ranked_step : (a b c : ℤ) → ltb_ℤ b a ≡ true → ltb_ℤ b c ≡ false → ltb_ℤ c a ≡ true
ranked_step a b c h k = ground arith

ranked_asym : (a b : ℤ) → ltb_ℤ b a ≡ true → ltb_ℤ a b ≡ false
ranked_asym a b h = ground arith

abbrev taller : ℤ → ℤ → ℤ → ℤ → Bool
taller h r h' r' = ltb_ℤ h' h || (eq_ℤ h h' && ltb_ℤ r' r)

taller_asym : (h r h' r' : ℤ) → taller h r h' r' ≡ true → taller h' r' h r ≡ false
taller_asym h r h' r' t = ground arith

taller_step :
    (a r b s c t : ℤ) → taller a r b s ≡ true → taller c t b s ≡ false → taller a r c t ≡ true
taller_step a r b s c t h k = ground arith

pub better_video-IsStrictOrder : IsStrictOrder better_video
unfolding better_video
better_video-IsStrictOrder = record {
  asym = λ a b h.
      taller_asym a.height (stream_bitrate a.bitrate) b.height (stream_bitrate b.bitrate) h;
  step = λ a b c h k.
      taller_step a.height (stream_bitrate a.bitrate) b.height (stream_bitrate b.bitrate) c.height
        (stream_bitrate c.bitrate) h k;
}

pub better_audio-IsStrictOrder : (preferred : Option Str) → IsStrictOrder (better_audio preferred)
unfolding better_audio
better_audio-IsStrictOrder preferred = record {
  asym = λ a b h. ranked_asym (audio_rank preferred a) (audio_rank preferred b) h;
  step = λ a b c h k.
      ranked_step (audio_rank preferred a) (audio_rank preferred b) (audio_rank preferred c) h k;
}

-- The video stream chosen passes every test, is taller, or as tall with a higher bitrate, than
-- each passing stream before it, and no passing stream behind it beats it; where none is chosen,
-- no stream passes.
pub select_video-Best :
    (lower : ℕ → ℕ) (streams : List VideoStreamItem) (options : SelectorOptions)
    → Best (eligible_video lower options) better_video streams (select_video lower streams options)
unfolding select_video
select_video-Best lower streams options =
    pick-Best (eligible_video lower options) better_video better_video-IsStrictOrder [] streams none
      tt

-- The audio stream chosen passes every test, ranks higher than each passing stream before it, and
-- no passing stream behind it ranks higher; where none is chosen, no stream passes. The rank is the
-- bitrate, with a bonus for the preferred track and one for the original language, as the 64-bit
-- sum wraps.
pub select_audio-Best :
    (lower : ℕ → ℕ) (streams : List AudioStreamItem) (preferred : Option Str)
    (options : SelectorOptions)
    → Best
        (eligible_audio lower options)
        (better_audio preferred)
        streams
        (select_audio lower streams preferred options)
unfolding select_audio
select_audio-Best lower streams preferred options =
    pick-Best (eligible_audio lower options) (better_audio preferred)
      (better_audio-IsStrictOrder preferred) [] streams none tt

audio_rank-preferred :
    (track : Str) (a : AudioStreamItem) (n : ℕ)
    → stream_bitrate a.bitrate ≡ pos n
    → n < 2 ^ 62
    → a.audio_track_id ≡ some track
    → audio_rank (some track) a ≡ pos (if a.is_original then n + 1_500_000 else n + 1_000_000)
unfolding audio_rank i64 ◌+ℤ◌
audio_rank-preferred track a n e b t = rw (e, t) (rw (str_eq_refl track) (ground arith))

same_track-other :
    (track : Str) (o : Option Str) → ¬ (o ≡ some track) → same_track (some track) o ≡ false
unfolding same_track
same_track-other track none h = refl
same_track-other track (some t) h = elim (Bool-cases (str_eq track t)) [
  | inl e ↦ absurd (h (ap some (sym ((str_eq_iff track t).0 e))))
  | inr n ↦ n
]

audio_rank-other :
    (track : Str) (a : AudioStreamItem) (n : ℕ)
    → stream_bitrate a.bitrate ≡ pos n
    → n < 2 ^ 62
    → ¬ (a.audio_track_id ≡ some track)
    → audio_rank (some track) a ≡ pos (if a.is_original then n + 500_000 else n)
unfolding audio_rank i64 ◌+ℤ◌
audio_rank-other track a n e b t = rw (e, same_track-other track a.audio_track_id t) (ground arith)

-- With bitrates from 0 to 2 ^ 62 a stream of the preferred track beats a stream of another track
-- whose bitrate is less than 500000 above its own, whichever of them is the original.
pub preferred_wins :
    (track : Str) (a b : AudioStreamItem) (n k : ℕ)
    → stream_bitrate a.bitrate ≡ pos n
    → stream_bitrate b.bitrate ≡ pos k
    → n < 2 ^ 62
    → k < 2 ^ 62
    → a.audio_track_id ≡ some track
    → ¬ (b.audio_track_id ≡ some track)
    → k < n + 500_000
    → better_audio (some track) a b ≡ true
unfolding better_audio
preferred_wins track a b n k ea eb ba bb ta tb close =
    rw (audio_rank-preferred track a n ea ba ta, audio_rank-other track b k eb bb tb) (ground arith)
