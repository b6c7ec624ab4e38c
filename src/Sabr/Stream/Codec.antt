-- ===== src/Sabr/Stream/Codec.antt =====
-- The frame format that `decodeFrameHeader` of internal/sabr/stream_protocol.go reads, written down
-- as an encoder of its own.
use type_type_downloader.Prelude.{
  List, [], ap, arith, length, refl, ℕ, ◌%◌, ◌++◌, ◌-◌, ◌/◌, ◌<◌, ◌^◌, ◌∙◌, ◌∷◌, ◌≡◌, ◌≤◌,
}
use type_type_downloader.Prelude.Int.{negsuc, pos, ℤ}
use type_type_downloader.Prelude.Result.{ok}
use type_type_downloader.Prelude.Words.{signed_64}
use type_type_downloader.Sabr.Stream.{
  FrameHeader, big_endian, decode_frame_header, frame_of, max_frame_bytes, signed_32,
}

abbrev byte_of : ℕ → ℕ → ℕ
byte_of n k = n / 256 ^ k % 256

abbrev pub be_32 : ℕ → List ℕ
be_32 n = byte_of n 3 ∷ byte_of n 2 ∷ byte_of n 1 ∷ byte_of n 0 ∷ []

abbrev pub be_64 : ℕ → List ℕ
be_64 n = byte_of n 7 ∷ byte_of n 6 ∷ byte_of n 5 ∷ byte_of n 4 ∷ be_32 n

-- The 32 bits of an int32.
abbrev pub word_32 : ℤ → ℕ
word_32 (pos n) = n
word_32 (negsuc n) = 2 ^ 32 - 1 - n

abbrev pub IsI32 : ℤ → Type 0
IsI32 (pos n) = n < 2 ^ 31
IsI32 (negsuc n) = n < 2 ^ 31

pub record Frame : Type 0 where
  pub kind : ℕ
  pub itag : ℤ
  pub sequence : ℤ
  pub payload : List ℕ

pub record IsFrame (f : Frame) : Type 0 where
  pub itag : IsI32 f.itag
  pub sequence : IsI32 f.sequence
  pub fits : length f.payload ≤ max_frame_bytes

abbrev pub header_of : Frame → FrameHeader
header_of f = record {
  kind = f.kind;
  itag = f.itag;
  sequence = f.sequence;
  length = length f.payload;
}

pub encode_header : Frame → List ℕ
encode_header f =
    f.kind ∷ (be_32 (word_32 f.itag) ++ (be_32 (word_32 f.sequence) ++ be_64 (length f.payload)))

unfoldable pub encode : Frame → List ℕ
encode f = encode_header f ++ f.payload

big_endian-be_32 : (n : ℕ) → n < 2 ^ 32 → big_endian 0 (be_32 n) ≡ n
unfolding big_endian
big_endian-be_32 n h = omega arith

big_endian-be_64 : (n : ℕ) → n < 2 ^ 32 → big_endian 0 (be_64 n) ≡ n
unfolding big_endian
big_endian-be_64 n h = omega arith

signed_32-word_32 : (a : ℤ) → IsI32 a → signed_32 (word_32 a) ≡ a
signed_32-word_32 (pos n) h = ground arith
signed_32-word_32 (negsuc n) h = ground arith

word_32-lt : (a : ℤ) → IsI32 a → word_32 a < 2 ^ 32
word_32-lt (pos n) h = omega arith
word_32-lt (negsuc n) h = omega arith

word_32_back : (a : ℤ) → IsI32 a → signed_32 (big_endian 0 (be_32 (word_32 a))) ≡ a
word_32_back a h =
    ap signed_32 (big_endian-be_32 (word_32 a) (word_32-lt a h)) ∙ signed_32-word_32 a h

signed_64-small : (n : ℕ) → n ≤ max_frame_bytes → signed_64 n ≡ pos n
signed_64-small n h = ground arith

frame_of-ok :
    (kind : ℕ) {itag sequence size itag' sequence' : ℤ} {n : ℕ}
    → itag ≡ itag'
    → sequence ≡ sequence'
    → size ≡ pos n
    → n ≤ max_frame_bytes
    → frame_of kind itag sequence size
      ≡ ok (record { kind = kind; itag = itag'; sequence = sequence'; length = n })
frame_of-ok kind e f g h = rw (e, f, g) (ground arith)

-- The decoder reads back the header that the encoder writes of any frame whose numbers are int32s and
-- whose payload is no longer than the limit.
pub decode-encode_header :
    (f : Frame) → IsFrame f → decode_frame_header (encode_header f) ≡ ok (header_of f)
unfolding decode_frame_header encode_header
decode-encode_header f v =
    frame_of-ok f.kind (word_32_back f.itag v.itag) (word_32_back f.sequence v.sequence)
      (ap signed_64 (big_endian-be_64 (length f.payload) (omega (arith, v.fits)))
        ∙ signed_64-small (length f.payload) v.fits)
      v.fits

pub length-encode_header : (f : Frame) → length (encode_header f) ≡ 17
unfolding encode_header
length-encode_header f = refl
