-- ===== src/Sabr/Stream/Refines.antt =====
-- `consumeDownloadStream` of internal/sabr/stream_protocol.go, on the bytes of a stream, against
-- `play`, on its frames.
use type_type_downloader.Prelude.{
  Bool, List, [], append_assoc, arith, false, inl, inr, length, refl, suc, true, zero, ℕ, ◌++◌, ◌+◌,
  ◌<◌, ◌==◌, ◌∙◌, ◌∷◌, ◌≡◌, ◌≤◌,
}
use type_type_downloader.Prelude.Result.{Result, Result-cases, err, ok, ◌>>=◌}
use type_type_downloader.Prelude.Text.{str_eq}
use type_type_downloader.Sabr.{StreamTrack}
use type_type_downloader.Sabr.Stream.{
  StreamError, accept_frame, consume_download_stream, consume_frame, consume_frames, consume_round,
  download_magic, finish_stream, finished, frame_complete, going, is_complete, read_magic, selected,
  stream_copy_buffer_size, validate_complete,
}
use type_type_downloader.Sabr.Stream.Codec.{Frame, IsFrame, encode, encode_header, header_of}
use type_type_downloader.Sabr.Stream.Copy.{read_full-ok}
use type_type_downloader.Sabr.Stream.Frames.{
  accept_frame-output, completion-IsFrame, consume_frame-ok, ends, length-encode_body,
  read_frame_header-encode,
}
use type_type_downloader.Sabr.Stream.Play.{
  IsBody, Roomy, Roomy-le, SelectedIn, completion, count_if, encode_body, payload_bytes, placed,
  play, play_frame, put_payload, selected-FoundIn,
}

module _ (wi : Bool) where
  round_completion :
      (tracks : List StreamTrack)
      → consume_round stream_copy_buffer_size wi tracks (ends (encode completion))
        ≡ (do checked ← is_complete tracks; ok (finished tracks))
  unfolding consume_round finish_stream validate_complete encode
  round_completion tracks =
      rw (read_frame_header-encode completion [] completion-IsFrame)
        (complete_if (is_complete tracks))
    where
      complete_if :
          (checked : Result StreamError Unit)
          → (do done ← (do c ← checked; ok tracks); ok (finished done))
            ≡ (do c ← checked; ok (finished tracks))
      complete_if (ok c) = refl
      complete_if (err e) = refl

  round_accepted :
      (f : Frame) (body : List ℕ) (track : StreamTrack) (put_back : StreamTrack → List StreamTrack)
      → length f.payload ≤ track.output.room
      → (do
        new ←
            consume_frame stream_copy_buffer_size wi track (header_of f) (ends (f.payload ++ body))
        ok (going (put_back new.0) new.1 new.2))
        ≡ (do
          accepted ← accept_frame track f.kind f.itag f.sequence wi
          ok (
              going
                (put_back (put_payload accepted.1 f.payload accepted.0))
                (count_if accepted.1 (length f.payload))
                (ends body)))
  round_accepted f body track put_back room =
      elim (Result-cases (accept_frame track f.kind f.itag f.sequence wi)) [
        | inl ((new, writes), e) ↦ rw (consume_frame-ok track f wi body new writes e room) (rw e)
        | inr (x, e) ↦ unfold consume_frame in rw e
      ]

  going_after :
      (f : Frame) (body : List ℕ) (put_back : StreamTrack → List StreamTrack)
      (r : Result StreamError (StreamTrack × Bool))
      → (do
        accepted ← r
        ok (
            going
              (put_back (put_payload accepted.1 f.payload accepted.0))
              (count_if accepted.1 (length f.payload))
              (ends body)))
        ≡ (do p ← placed f.payload put_back r; ok (going p.0 p.1 (ends body)))
  going_after f body put_back (ok a) = refl
  going_after f body put_back (err e) = refl

  round_selected :
      (f : Frame) (body : List ℕ)
      (s : Result StreamError (StreamTrack × (StreamTrack → List StreamTrack)))
      → SelectedIn (length f.payload) s
      → (do
        found ← s
        new ←
            consume_frame stream_copy_buffer_size wi found.0
              (header_of f)
              (ends (f.payload ++ body))
        ok (going (found.1 new.0) new.1 new.2))
        ≡ (do
          p ← (do
            found ← s
            placed f.payload found.1 (accept_frame found.0 f.kind f.itag f.sequence wi))
          ok (going p.0 p.1 (ends body)))
  round_selected f body (err e) h = refl
  round_selected f body (ok (track, put_back)) h =
      round_accepted f body track put_back h.0
      ∙ going_after f body put_back (accept_frame track f.kind f.itag f.sequence wi)

  pub round_frame :
      (tracks : List StreamTrack) (f : Frame) (body : List ℕ)
      → IsFrame f
      → (f.kind == frame_complete) ≡ false
      → Roomy (length f.payload) tracks
      → consume_round stream_copy_buffer_size wi tracks (ends (encode f ++ body))
        ≡ (do p ← play_frame wi tracks f; ok (going p.0 p.1 (ends body)))
  unfolding consume_round encode play_frame
  round_frame tracks f body v k room = rw (append_assoc (encode_header f) f.payload body) (
      rw (read_frame_header-encode f (f.payload ++ body) v) (
        rw k
          (round_selected f body (selected tracks f.itag) (selected-FoundIn _ tracks f.itag room))))

  room_left :
      (n : ℕ) (payload : List ℕ) (writes : Bool) (t new : StreamTrack)
      → length payload + n ≤ t.output.room
      → new.output ≡ t.output
      → n ≤ (put_payload writes payload new).output.room
  room_left n payload true t new h e = rw e (omega arith)
  room_left n payload false t new h e = rw e (omega arith)

  placed-Roomy :
      (n : ℕ) (f : Frame) (s : Result StreamError (StreamTrack × (StreamTrack → List StreamTrack)))
      {new : List StreamTrack} {bytes : ℕ}
      → SelectedIn (length f.payload + n) s
      → (do found ← s; placed f.payload found.1 (accept_frame found.0 f.kind f.itag f.sequence wi))
        ≡ ok (new, bytes)
      → Roomy n new
  placed-Roomy n f (err x) h e = absurd (cc)
  placed-Roomy n f (ok (track, put_back)) {new} {bytes} h e =
      elim (Result-cases (accept_frame track f.kind f.itag f.sequence wi)) [
        | inr (x, r) ↦ absurd (cc (rw r at e))
        | inl ((t', writes), r) ↦
            let same : put_back (put_payload writes f.payload t') ≡ new = cc (rw r at e) in
            rw (← same) (
              h.1 n (put_payload writes f.payload t') (omega arith) (
                room_left n f.payload writes track t' h.0
                  (accept_frame-output track f.kind f.itag f.sequence wi r)))
      ]

  play_frame-Roomy :
      (n : ℕ) (tracks new : List StreamTrack) (f : Frame) (bytes : ℕ)
      → Roomy (length f.payload + n) tracks
      → play_frame wi tracks f ≡ ok (new, bytes)
      → Roomy n new
  unfolding play_frame
  play_frame-Roomy n tracks new f bytes room e =
      placed-Roomy n f (selected tracks f.itag)
        (selected-FoundIn (length f.payload + n) tracks f.itag room) e

  pub consume_frames-play :
      (fuel counted : ℕ) (tracks : List StreamTrack) (fs : List Frame)
      → IsBody fs
      → Roomy (payload_bytes fs) tracks
      → length fs < fuel
      → consume_frames fuel stream_copy_buffer_size wi tracks counted (ends (encode_body fs))
        ≡ play wi tracks counted fs
  unfolding play encode_body consume_frames
  consume_frames-play zero counted tracks fs b room h = elim h [ ]
  consume_frames-play (suc fuel) counted tracks [] b room h =
      rw (round_completion tracks, consume_frames)
        (elim (Result-cases (is_complete tracks)) [ inl (u, e) ↦ rw e | inr (x, e) ↦ rw e ])
  consume_frames-play (suc fuel) counted tracks (f ∷ fs) b room h =
      rw
        (
          round_frame tracks f (encode_body fs) b.0 b.1 (
              Roomy-le (length f.payload + payload_bytes fs) (length f.payload) tracks room
                (omega arith)),
          consume_frames,
        )
        (elim (Result-cases (play_frame wi tracks f)) [
          | inl ((new, bytes), e) ↦
              rw (e, consume_frames, play)
                (consume_frames-play fuel (counted + bytes) new fs b.2
                  (play_frame-Roomy (payload_bytes fs) tracks new f bytes room e) (omega arith))
          | inr (x, e) ↦ rw (e, consume_frames, play)
        ])

-- On the bytes of any stream of well-formed frames, whatever their order and their itags, the
-- consumer does what the frame-by-frame specification does: the same tracks, the same count of
-- bytes, or the same error. The disk has room for the payloads.
pub consume_download_stream-play :
    (fs : List Frame) (tracks : List StreamTrack) (wi : Bool)
    → IsBody fs
    → Roomy (payload_bytes fs) tracks
    → consume_download_stream (ends (download_magic ++ encode_body fs)) tracks wi
      ≡ play wi tracks 0 fs
unfolding consume_download_stream str_eq
consume_download_stream-play fs tracks wi b room =
    rw
      (
        read_full-ok 8 read_magic (ends (download_magic ++ encode_body fs)) (omega arith),
        consume_download_stream,
      )
      (consume_frames-play wi (length (encode_body fs)) 0 tracks fs b room (length-encode_body fs))
