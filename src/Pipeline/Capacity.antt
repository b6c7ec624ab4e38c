-- ===== src/Pipeline/Capacity.antt =====
-- internal/pipeline/capacity.go and the test for HLS of remote_mux.go: how many bytes a job
-- reserves on the disk. `url_path` is the path that url.Parse finds, none for its error, and `lower`
-- is unicode.ToLower.

use native.Mathlib.Nat.{div-lt_iff_lt-mul}
use type_type_downloader.Prelude.{
  Bool, Bool-cases, Option, arith, false, if◌then◌else◌, inl, inr, leb, ltb, none, not, refl, some,
  suc, zero, ℕ, ◌&&◌, ◌*◌, ◌+◌, ◌-◌, ◌/◌, ◌<◌, ◌==◌, ◌||◌, ◌≡◌, ◌≤◌, ◌⊎◌,
}
use type_type_downloader.Prelude.Int.{ltb_ℤ, negsuc, pos, pos_part, ℤ}
use type_type_downloader.Prelude.Result.{Result, ok}
use type_type_downloader.Prelude.Text.{Str, has_suffix, lit, str_eq, to_lower}
use type_type_downloader.Prelude.Words.{max_u64, u64}
use type_type_downloader.Selector.{AudioSelection, Selection, sabr}
use type_type_downloader.Storage.{Monitor, Statfs, StorageError, reserve}

pub record UrlTools : Type 0 where
  pub url_path : Str → Option Str
  pub lower : ℕ → ℕ

unfoldable pub media_bytes : ℤ → Option ℤ → ℤ → ℕ
media_bytes content_length bitrate duration =
    if ltb_ℤ (pos 0) content_length then pos_part content_length else elim bitrate [
      | none ↦ 0
      | some value ↦
          if ltb_ℤ (pos 0) value && ltb_ℤ (pos 0) duration
          then (if ltb (max_u64 / pos_part duration) (pos_part value)
              then max_u64
              else u64 (pos_part value * pos_part duration) / 8)
          else 0
    ]

unfoldable pub known_sum : ℕ → ℕ → ℕ
known_sum left right = if ltb (max_u64 - right) left then max_u64 else left + right

unfoldable pub scaled_bytes : ℕ → ℕ → ℕ
scaled_bytes bytes tenths =
    if ltb (max_u64 / tenths) bytes then max_u64 else u64 (bytes * tenths) / 10

abbrev pub output_headroom_tenths : ℕ
output_headroom_tenths = 11

abbrev pub local_peak_tenths : ℕ
local_peak_tenths = 21

module _ (tools : UrlTools) where
  unfoldable pub is_hls : Str → Bool
  is_hls raw_url = elim (tools.url_path raw_url) [
    | none ↦ false
    | some path ↦ has_suffix (to_lower tools.lower path) (lit ".m3u8")
  ]

  unfoldable pub uses_remote_mux : Selection → Bool
  unfolding is_hls
  uses_remote_mux selection = is_hls selection.video.url || is_hls selection.audio.url

  unfoldable pub video_tenths : Selection → ℕ
  video_tenths selection =
      if str_eq selection.video.delivery_method sabr
        || (ltb_ℤ (pos 0) selection.video.content_length
            && ltb_ℤ (pos 0) selection.audio.content_length
            && not (uses_remote_mux selection))
      then local_peak_tenths
      else output_headroom_tenths

  unfoldable pub video_reservation_bytes : Selection → ℤ → ℕ
  unfolding video_tenths
  video_reservation_bytes selection duration =
      let video_bytes =
        media_bytes selection.video.content_length selection.video.bitrate duration in
      let audio_bytes =
        media_bytes selection.audio.content_length selection.audio.bitrate duration in
      let total = known_sum video_bytes audio_bytes in
      if total == 0 then 0 else scaled_bytes total (video_tenths selection)

unfoldable pub audio_tenths : AudioSelection → ℕ
audio_tenths selection =
    if str_eq selection.audio.delivery_method sabr
    then local_peak_tenths
    else output_headroom_tenths

unfoldable pub audio_reservation_bytes : AudioSelection → ℤ → ℕ
unfolding audio_tenths
audio_reservation_bytes selection duration =
    let bytes = media_bytes selection.audio.content_length selection.audio.bitrate duration in
    if bytes == 0 then 0 else scaled_bytes bytes (audio_tenths selection)

-- No reservation, or one of the disk monitor.
unfoldable pub reserve_bytes :
    Monitor → Str → ℕ → Option Statfs → Monitor × Result StorageError Unit
reserve_bytes disk id bytes stat = if bytes == 0 then (disk, ok tt) else reserve disk id bytes stat

unfoldable pub reserve_video :
    UrlTools → Monitor → Str → Selection → ℤ → Option Statfs → Monitor × Result StorageError Unit
unfolding reserve_bytes
reserve_video tools disk id selection duration stat =
    reserve_bytes disk id (video_reservation_bytes tools selection duration) stat

unfoldable pub reserve_audio :
    Monitor → Str → AudioSelection → ℤ → Option Statfs → Monitor × Result StorageError Unit
unfolding reserve_bytes
reserve_audio disk id selection duration stat =
    reserve_bytes disk id (audio_reservation_bytes selection duration) stat

-- The size of one stream in whole numbers, with no word that could overflow.
abbrev pub stream_size : ℤ → Option ℤ → ℤ → ℕ
stream_size content_length none duration = pos_part content_length
stream_size content_length (some bitrate) duration =
    if ltb_ℤ (pos 0) content_length
    then pos_part content_length
    else pos_part bitrate * pos_part duration / 8

-- In uint64 that size, or, where the product of the bitrate and the duration is no uint64, the
-- largest uint64.
abbrev Sized : ℕ → ℕ → Type 0
Sized size bytes =
    ((bytes ≡ size) × (size ≤ max_u64)) ⊎ ((bytes ≡ max_u64) × (max_u64 < size * 8 + 8))

rated :
    (v d : ℕ) → 0 < d → Sized (v * d / 8) (if ltb (max_u64 / d) v then max_u64 else u64 (v * d) / 8)
rated v d h = elim (Bool-cases (ltb (max_u64 / d) v)) [
  | inl y ↦
      let over = (div-lt_iff_lt-mul {k = d} {x = max_u64} {y = v} h).0 (ground arith) in
      rw y (inr (refl, omega arith))
  | inr n ↦
      let within : ¬ (max_u64 < v * d) = λ over.
        absurd (ground (arith, (div-lt_iff_lt-mul {k = d} {x = max_u64} {y = v} h).1 over)) in
      rw n (inl (omega arith, omega arith))
]

unsized :
    (bitrate duration : ℤ)
    → (ltb_ℤ (pos 0) bitrate && ltb_ℤ (pos 0) duration) ≡ false
    → 0 ≡ pos_part bitrate * pos_part duration / 8
unsized (negsuc b) duration m = omega arith
unsized (pos b) (negsuc d) m = omega arith
unsized (pos zero) (pos d) m = omega arith
unsized (pos (suc b)) (pos zero) m = omega arith
unsized (pos (suc b)) (pos (suc d)) m = absurd (ground arith)

media_bytes-Sized :
    (content_length : ℤ) (bitrate : Option ℤ) (duration : ℤ)
    → pos_part content_length ≤ max_u64
    → Sized
        (stream_size content_length bitrate duration)
        (media_bytes content_length bitrate duration)
unfolding media_bytes
media_bytes-Sized content_length none duration h = ground arith
media_bytes-Sized content_length (some bitrate) duration h =
    elim (Bool-cases (ltb_ℤ (pos 0) content_length)) [
      | inl y ↦ rw y (inl (refl, h))
      | inr n ↦ elim (Bool-cases (ltb_ℤ (pos 0) bitrate && ltb_ℤ (pos 0) duration)) [
        | inl y ↦ rw (n, y) (rated (pos_part bitrate) (pos_part duration) (ground arith))
        | inr m ↦ rw (n, m) (inl (unsized bitrate duration m, ground arith))
      ]
    ]

abbrev IsTenths : ℕ → Type 0
IsTenths t = (t ≡ 11) ⊎ (t ≡ 21)

-- The size in tenths, or the largest uint64 where that is no uint64.
abbrev pub scaled : ℕ → ℕ → ℕ
scaled size tenths = if leb (size * tenths) max_u64 then size * tenths / 10 else max_u64

scaled_lem :
    (size bytes tenths : ℕ)
    → IsTenths tenths
    → Sized size bytes
    → (if bytes == 0 then 0 else scaled_bytes bytes tenths) ≡ scaled size tenths
unfolding scaled_bytes
scaled_lem size bytes tenths (inl t) s = rw t (ground arith)
scaled_lem size bytes tenths (inr t) s = rw t (ground arith)

known_sum-Sized : (a b x y : ℕ) → Sized a x → Sized b y → Sized (a + b) (known_sum x y)
unfolding known_sum
known_sum-Sized a b x y s t = ground arith

video_tenths-IsTenths :
    (tools : UrlTools) (selection : Selection) → IsTenths (video_tenths tools selection)
unfolding video_tenths
video_tenths-IsTenths tools selection = ground arith

-- A video job reserves the sizes of its two streams, in whole numbers, times 1.1, or times 2.1
-- where parts and output lie on the disk together; where the product is no uint64 it reserves the
-- largest one, and never a number that has wrapped around.
pub video_reservation_bytes_lem :
    (tools : UrlTools) (selection : Selection) (duration : ℤ)
    → pos_part selection.video.content_length ≤ max_u64
    → pos_part selection.audio.content_length ≤ max_u64
    → video_reservation_bytes tools selection duration
      ≡ scaled
          (stream_size selection.video.content_length selection.video.bitrate duration
            + stream_size selection.audio.content_length selection.audio.bitrate duration)
          (video_tenths tools selection)
unfolding video_reservation_bytes
video_reservation_bytes_lem tools selection duration v a =
    let video = selection.video in
    let audio = selection.audio in
    scaled_lem _ _ (video_tenths tools selection) (video_tenths-IsTenths tools selection) (
      known_sum-Sized _ _ _ _ (media_bytes-Sized video.content_length video.bitrate duration v)
        (media_bytes-Sized audio.content_length audio.bitrate duration a))
