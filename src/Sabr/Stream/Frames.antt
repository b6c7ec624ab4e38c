-- ===== src/Sabr/Stream/Frames.antt =====
-- One frame as `consumeFrame` of internal/sabr/stream_protocol.go reads it.
use type_type_downloader.Prelude.{
  Bool, List, [], arith, drop, drop-append_all, false, length, length-append, refl, subst, take,
  take-append_all, true, ℕ, ◌++◌, ◌<◌, ◌∙◌, ◌∷◌, ◌≡◌, ◌≤◌,
}
use type_type_downloader.Prelude.Int.{ℤ}
use type_type_downloader.Prelude.Result.{ok}
use type_type_downloader.Sabr.{StreamTrack}
use type_type_downloader.Sabr.Stream.{
  Reader, Writer, accept_frame, consume_frame, copy_frame, output_of, read_frame_header,
  read_header, store_output, stream_copy_buffer_size,
}
use type_type_downloader.Sabr.Stream.Codec.{
  Frame, IsFrame, decode-encode_header, encode, encode_header, header_of, length-encode_header,
}
use type_type_downloader.Sabr.Stream.Copy.{RoomFor, copy_loop_lem, read_full-ok, wrote}
use type_type_downloader.Sabr.Stream.Play.{completion, count_if, encode_body, put_payload}

abbrev pub ends : List ℕ → Reader
ends bytes = record { bytes = bytes; at_end = true }

header_taken : (f : Frame) (rest : List ℕ) → take 17 (encode_header f ++ rest) ≡ encode_header f
header_taken f rest =
    subst (λ n. take n (encode_header f ++ rest) ≡ encode_header f) (length-encode_header f)
      (take-append_all (encode_header f) rest)

header_dropped : (f : Frame) (rest : List ℕ) → drop 17 (encode_header f ++ rest) ≡ rest
header_dropped f rest =
    subst (λ n. drop n (encode_header f ++ rest) ≡ rest) (length-encode_header f)
      (drop-append_all (encode_header f) rest)

header_there : (f : Frame) (rest : List ℕ) → 17 ≤ length (encode_header f ++ rest)
header_there f rest = omega (arith, length-append (encode_header f) rest, length-encode_header f)

pub read_frame_header-encode :
    (f : Frame) (rest : List ℕ)
    → IsFrame f
    → read_frame_header (ends (encode_header f ++ rest)) ≡ ok (header_of f, ends rest)
unfolding read_frame_header
read_frame_header-encode f rest v =
    rw (read_full-ok 17 read_header (ends (encode_header f ++ rest)) (header_there f rest))
      (rw (header_taken, header_dropped) (rw (decode-encode_header f v)))

pub accept_frame-output :
    (t : StreamTrack) (kind : ℕ) (itag sequence : ℤ) (wi : Bool) {new : StreamTrack} {writes : Bool}
    → accept_frame t kind itag sequence wi ≡ ok (new, writes)
    → new.output ≡ t.output
unfolding accept_frame
accept_frame-output t kind itag sequence wi e = ground arith

copy_frame-payload :
    (payload rest : List ℕ) (w : Writer)
    → RoomFor (length payload) w
    → copy_frame stream_copy_buffer_size (length payload) w (ends (payload ++ rest))
      ≡ ok (length payload, wrote payload w, ends rest)
unfolding copy_frame
copy_frame-payload payload rest w room =
    copy_loop_lem stream_copy_buffer_size (length payload) (omega arith) (length payload) 0
      (length payload) w (ends (payload ++ rest)) (omega arith) (omega arith)
      (omega (arith, length-append payload rest)) room
    ∙ rw (take-append_all, drop-append_all)

room_to_write :
    (n : ℕ) (writes : Bool) (t : StreamTrack) → n ≤ t.output.room → RoomFor n (output_of writes t)
unfolding output_of
room_to_write n true t h = h
room_to_write n false t h = tt

stored :
    (payload rest : List ℕ) (writes : Bool) (t : StreamTrack)
    → store_output (wrote payload (output_of writes t)) t ≡ put_payload writes payload t
unfolding store_output output_of
stored payload rest true t = refl
stored payload rest false t = refl

pub consume_frame-ok :
    (t : StreamTrack) (f : Frame) (wi : Bool) (rest : List ℕ) (new : StreamTrack) (writes : Bool)
    → accept_frame t f.kind f.itag f.sequence wi ≡ ok (new, writes)
    → length f.payload ≤ t.output.room
    → consume_frame stream_copy_buffer_size wi t (header_of f) (ends (f.payload ++ rest))
      ≡ ok (put_payload writes f.payload new, count_if writes (length f.payload), ends rest)
unfolding consume_frame
consume_frame-ok t f wi rest new writes e room = rw e (
    rw
      (copy_frame-payload f.payload rest (output_of writes new) (
        room_to_write (length f.payload) writes new
          (rw (accept_frame-output t f.kind f.itag f.sequence wi e) room)))
      (ground (arith, stored f.payload rest writes new)))

pub completion-IsFrame : IsFrame completion
completion-IsFrame = record { itag = omega arith; sequence = omega arith; fits = omega arith }

pub length-encode_body : (fs : List Frame) → length fs < length (encode_body fs)
unfolding encode_body encode
length-encode_body [] =
    omega (arith, length-append (encode_header completion) [], length-encode_header completion)
length-encode_body (f ∷ fs) = omega (
  arith,
  length-encode_body fs,
  length-append (encode_header f ++ f.payload) (encode_body fs),
  length-append (encode_header f) f.payload,
  length-encode_header f,
)
