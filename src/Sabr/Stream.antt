-- ===== src/Sabr/Stream.antt =====
-- internal/sabr/stream_protocol.go: the framed stream that one SABR part arrives in. Bytes are
-- numbers below 256. A reader is the bytes that are still to come and how they end.
pub mod Codec
pub mod Copy
pub mod Play
pub mod Frames
pub mod Refines
pub mod Tracks
pub mod Outcome
use mathlib.Core.Option
use type_type_downloader.Prelude.{
  Bool, List, Option, [], drop, false, get_or, if◌then◌else◌, leb, length, ltb, min, none, not,
  some, suc, take, true, zero, ℕ, ◌&&◌, ◌*◌, ◌++◌, ◌+◌, ◌-◌, ◌==◌, ◌^◌, ◌||◌, ◌∷◌,
}
use type_type_downloader.Prelude.Int.{eq_ℤ, ltb_ℤ, negsuc, pos, ℤ, ◌+ℤ◌}
use type_type_downloader.Prelude.Result.{Result, err, ok, ◌>>=◌}
use type_type_downloader.Prelude.Text.{Str, is_empty, lit, str_eq}
use type_type_downloader.Prelude.Words.{signed_64}
use type_type_downloader.Sabr.{File, StreamTrack}

-- `at_end` is true where the bytes end by io.EOF, false where they end by another error.
pub record Reader : Type 0 where
  pub bytes : List ℕ
  pub at_end : Bool

pub data StreamError : Type 0 where
  read_magic invalid_magic read_header read_frame short_write unexpected_eof : StreamError
  invalid_completion trailing_data out_of_fuel : StreamError
  invalid_length : ℤ → StreamError
  unselected_itag invalid_initialization : ℤ → StreamError
  out_of_order : ℤ → ℤ → ℤ → StreamError
  unknown_frame : ℕ → StreamError
  incomplete_track : Str → StreamError

-- `length` is an int64 that `decode_frame_header` holds to 0 .. max_frame_bytes.
pub record FrameHeader : Type 0 where
  pub kind : ℕ
  pub itag : ℤ
  pub sequence : ℤ
  pub length : ℕ

abbrev pub frame_initialization : ℕ
frame_initialization = 1

abbrev pub frame_media : ℕ
frame_media = 2

abbrev pub frame_complete : ℕ
frame_complete = 3

abbrev pub frame_header_size : ℕ
frame_header_size = 17

abbrev pub max_frame_bytes : ℕ
max_frame_bytes = 64 * 2 ^ 20

abbrev pub download_magic : Str
download_magic = lit "TTSABR1\n"

-- io.ReadFull: all of the bytes asked for, or an error.
pub read_full : ℕ → StreamError → Reader → Result StreamError (List ℕ × Reader)
read_full n e r =
    if leb n (length r.bytes)
    then ok (take n r.bytes, record r { bytes = drop n r.bytes })
    else err e

-- binary.BigEndian: the number that the bytes stand for.
pub big_endian : ℕ → List ℕ → ℕ
big_endian acc [] = acc
big_endian acc (b ∷ bs) = big_endian (acc * 256 + b) bs

-- int(int32(w))
abbrev pub signed_32 : ℕ → ℤ
signed_32 w = if ltb w (2 ^ 31) then pos w else negsuc (2 ^ 32 - w - 1)

abbrev frame_of : ℕ → ℤ → ℤ → ℤ → Result StreamError FrameHeader
frame_of kind itag sequence (negsuc n) = err (invalid_length (negsuc n))
frame_of kind itag sequence (pos n) =
    if ltb max_frame_bytes n
    then err (invalid_length (pos n))
    else ok (record { kind = kind; itag = itag; sequence = sequence; length = n })

pub decode_frame_header : List ℕ → Result StreamError FrameHeader
decode_frame_header raw =
    frame_of (get_or raw 0 0) (signed_32 (big_endian 0 (take 4 (drop 1 raw))))
      (signed_32 (big_endian 0 (take 4 (drop 5 raw))))
      (signed_64 (big_endian 0 (take 8 (drop 9 raw))))

-- io.Writer: io.Discard, or the file of a track.
pub data Writer : Type 0 where
  discard : Writer
  to_file : File → Writer

-- A file writes the bytes that the disk has room for; fewer than asked is an error.
write : List ℕ → Writer → Result StreamError Writer
write chunk discard = ok discard
write chunk (to_file f) =
    if leb (length chunk) f.room
    then ok (to_file (record { written = f.written ++ chunk; room = f.room - length chunk }))
    else err short_write

-- The loop of `copyFrame`, with its buffer's length; each round copies at least one byte, so as
-- much fuel as bytes are left is enough.
pub copy_loop : ℕ → ℕ → ℕ → ℕ → Writer → Reader → Result StreamError (ℕ × Writer × Reader)
copy_loop zero buffer written size w r =
    if ltb written size then err out_of_fuel else ok (written, w, r)
copy_loop (suc fuel) buffer written size w r =
    let next = (do
      got ← read_full (min buffer (size - written)) read_frame r
      w' ← write got.0 w
      copy_loop fuel buffer (written + length got.0) size w' got.1) in
    if ltb written size then next else ok (written, w, r)

pub copy_frame : ℕ → ℕ → Writer → Reader → Result StreamError (ℕ × Writer × Reader)
unfolding copy_loop write read_full
copy_frame buffer size w r = copy_loop size buffer 0 size w r

-- What `consumeFrame` decides before it copies: the track's new state, and whether the payload is
-- written and counted.
unfoldable pub accept_frame :
    StreamTrack → ℕ → ℤ → ℤ → Bool → Result StreamError (StreamTrack × Bool)
accept_frame track kind itag sequence write_initialization =
    if kind == frame_initialization
    then (if track.initialized || not (eq_ℤ sequence (pos 0))
        then err (invalid_initialization track.itag)
        else ok (record track { initialized = true }, write_initialization))
    else if kind == frame_media
    then (let expected =
          if eq_ℤ track.next_sequence (pos 0) then sequence else track.next_sequence in
        if not track.initialized || not (ltb_ℤ (pos 0) sequence) || not (eq_ℤ sequence expected)
        then err (out_of_order track.itag sequence expected)
        else ok (record track { next_sequence = expected +ℤ pos 1; media_written = true }, true))
    else err (unknown_frame kind)

output_of : Bool → StreamTrack → Writer
output_of true track = to_file track.output
output_of false track = discard

store_output : Writer → StreamTrack → StreamTrack
store_output discard track = track
store_output (to_file f) track = record track { output = f }

-- The track after the frame, the bytes that the progress counter is told of, and the reader.
pub consume_frame :
    ℕ → Bool → StreamTrack → FrameHeader → Reader → Result StreamError (StreamTrack × ℕ × Reader)
unfolding output_of store_output accept_frame
consume_frame buffer write_initialization track header r = do
  accepted ← accept_frame track header.kind header.itag header.sequence write_initialization
  copied ← copy_frame buffer header.length (output_of accepted.1 accepted.0) r
  if not (copied.0 == header.length)
      then err unexpected_eof
      else ok (store_output copied.1 accepted.0, (if accepted.1 then copied.0 else 0), copied.2)

abbrev pub is_complete : List StreamTrack → Result StreamError Unit
is_complete [] = ok tt
is_complete (track ∷ rest) =
    if not track.initialized || not track.media_written
    then err (incomplete_track track.kind)
    else is_complete rest

pub validate_complete : List StreamTrack → ℤ → ℤ → ℕ → Result StreamError Unit
validate_complete tracks itag sequence length =
    if not (eq_ℤ itag (pos 0)) || not (eq_ℤ sequence (pos 0)) || not (length == 0)
    then err invalid_completion
    else is_complete tracks

-- `findTrack` gives a pointer into the slice: the first track with the itag, and the slice with
-- that track replaced.
unfoldable pub find_track :
    List StreamTrack → ℤ → Option (StreamTrack × (StreamTrack → List StreamTrack))
find_track [] itag = none
find_track (track ∷ rest) itag =
    if eq_ℤ track.itag itag
    then some (track, λ new. new ∷ rest)
    else Option.map (λ found. (found.0, λ new. track ∷ found.1 new)) (find_track rest itag)

pub finish_stream : List StreamTrack → FrameHeader → Reader → Result StreamError (List StreamTrack)
finish_stream tracks header r = do
  checked ← validate_complete tracks header.itag header.sequence header.length
  if is_empty r.bytes && r.at_end then ok tracks else err trailing_data

pub read_frame_header : Reader → Result StreamError (FrameHeader × Reader)
read_frame_header r = do
  raw ← read_full frame_header_size read_header r
  header ← decode_frame_header raw.0
  ok (header, raw.1)

-- A round of the loop of `consumeDownloadStream` ends the stream, or hands on the tracks, the bytes
-- to count and the reader.
pub data Round : Type 0 where
  finished : List StreamTrack → Round
  going : List StreamTrack → ℕ → Reader → Round

unfoldable pub selected :
    List StreamTrack → ℤ → Result StreamError (StreamTrack × (StreamTrack → List StreamTrack))
selected tracks itag = elim (find_track tracks itag) [
  | none ↦ err (unselected_itag itag)
  | some found ↦ ok found
]

pub consume_round : ℕ → Bool → List StreamTrack → Reader → Result StreamError Round
consume_round buffer write_initialization tracks r = do
  got ← read_frame_header r
  let stop = (do done ← finish_stream tracks got.0 got.1; ok (finished done))
  let go_on = (do
    found ← selected tracks got.0.itag
    new ← consume_frame buffer write_initialization found.0 got.0 got.1
    ok (going (found.1 new.0) new.1 new.2))
  if got.0.kind == frame_complete then stop else go_on

-- The loop of `consumeDownloadStream`: the count of the progress counter, and the tracks or the
-- error. Each round reads a header, so as much fuel as bytes are left is enough; a round with no
-- bytes left is the error of `read_frame_header`.
pub consume_frames :
    ℕ → ℕ → Bool → List StreamTrack → ℕ → Reader → ℕ × Result StreamError (List StreamTrack)
consume_frames zero buffer write_initialization tracks counted r = (counted, err read_header)
consume_frames (suc fuel) buffer write_initialization tracks counted r =
    elim (consume_round buffer write_initialization tracks r) [
      | err e ↦ (counted, err e)
      | ok (finished done) ↦ (counted, ok done)
      | ok (going new bytes left) ↦
          consume_frames fuel buffer write_initialization new (counted + bytes) left
    ]

abbrev stream_copy_buffer_size : ℕ
stream_copy_buffer_size = 256 * 1024

pub consume_download_stream :
    Reader → List StreamTrack → Bool → ℕ × Result StreamError (List StreamTrack)
consume_download_stream r tracks write_initialization = elim (read_full 8 read_magic r) [
  | err e ↦ (0, err e)
  | ok (magic, rest) ↦ elim (str_eq magic download_magic) [
    | false ↦ (0, err invalid_magic)
    | true ↦
        consume_frames (length rest.bytes) stream_copy_buffer_size write_initialization tracks 0
          rest
  ]
]
