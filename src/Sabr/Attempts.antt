-- ===== src/Sabr/Attempts.antt =====
-- How many parts a download of internal/sabr/download.go has.
use type_type_downloader.Prelude.{
  Bool, Bool-cases, arith, false, if◌then◌else◌, inl, inr, true, ℕ, ◌<◌, ◌≡◌, ◌≤◌,
}
use type_type_downloader.Prelude.Int.{ltb_ℤ, pos, ℤ}
use type_type_downloader.Sabr.{SabrOptions}
use type_type_downloader.Sabr.Download.{
  audio_parts, download_part_count, max_download_parts, video_parts,
}

pub record IsPartCount (n : ℤ) : Type 0 where
  pub positive : ltb_ℤ (pos 0) n ≡ true
  pub bounded : ltb_ℤ max_download_parts n ≡ false

IsPartCount-if :
    (b : Bool) (m n : ℤ) → IsPartCount m → IsPartCount n → IsPartCount (if b then m else n)
IsPartCount-if true m n h k = h
IsPartCount-if false m n h k = k

few : (n : ℕ) → 0 < n → n ≤ 12 → IsPartCount (pos n)
few n h k = record { positive = ground arith; bounded = ground arith }

audio_parts-IsPartCount : (expected : ℤ) → IsPartCount (audio_parts expected)
unfolding audio_parts
audio_parts-IsPartCount expected =
    IsPartCount-if _ _ _ (few 4 (omega arith) (omega arith))
      (IsPartCount-if _ _ _ (few 2 (omega arith) (omega arith)) (few 1 (omega arith) (omega arith)))

video_parts-IsPartCount : (expected : ℤ) → IsPartCount (video_parts expected)
unfolding video_parts
video_parts-IsPartCount expected = IsPartCount-if _ _ _ (few 12 (omega arith) (omega arith)) (
    IsPartCount-if _ _ _ (few 6 (omega arith) (omega arith)) (
      IsPartCount-if _ _ _ (few 4 (omega arith) (omega arith)) (
        IsPartCount-if _ _ _ (few 2 (omega arith) (omega arith))
          (few 1 (omega arith) (omega arith)))))

-- A download asks for at least one part and for at most twelve, whatever its options are.
pub download_part_count-IsPartCount :
    (options : SabrOptions) → IsPartCount (download_part_count options)
unfolding download_part_count
download_part_count-IsPartCount options = elim (Bool-cases (ltb_ℤ (pos 0) options.parts)) [
  | inl y ↦ elim (Bool-cases (ltb_ℤ max_download_parts options.parts)) [
    | inl z ↦ rw (y, z) (few 12 (omega arith) (omega arith))
    | inr n ↦ rw (y, n) (record { positive = y; bounded = n })
  ]
  | inr n ↦ rw n (
      IsPartCount-if options.audio_only _ _ (audio_parts-IsPartCount options.expected_bytes)
        (video_parts-IsPartCount options.expected_bytes))
]
