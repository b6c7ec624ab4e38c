-- ===== src/Sabr/Stream/Play.antt =====
-- What a SABR stream means, frame by frame and with no bytes: the specification of
-- `consumeDownloadStream` of internal/sabr/stream_protocol.go.
use mathlib.Core.Option
use type_type_downloader.Prelude.{
  Bool, Bool-cases, List, Option, Option-cases, [], arith, false, inl, inr, length, none, some,
  true, ℕ, ◌++◌, ◌+◌, ◌-◌, ◌==◌, ◌∷◌, ◌≡◌, ◌≤◌,
}
use type_type_downloader.Prelude.Int.{eq_ℤ, pos, ℤ}
use type_type_downloader.Prelude.Result.{Result, err, ok, ◌>>=◌}
use type_type_downloader.Sabr.{StreamTrack}
use type_type_downloader.Sabr.Stream.{
  StreamError, accept_frame, find_track, frame_complete, is_complete, selected,
}
use type_type_downloader.Sabr.Stream.Codec.{Frame, IsFrame, encode}

abbrev pub put_payload : Bool → List ℕ → StreamTrack → StreamTrack
put_payload true payload track = record track {
  output = record {
    written = track.output.written ++ payload;
    room = track.output.room - length payload;
  };
}
put_payload false payload track = track

abbrev pub count_if : Bool → ℕ → ℕ
count_if true n = n
count_if false n = 0

-- The tracks and the count after a frame that its track accepts.
abbrev pub placed :
    List ℕ
    → (StreamTrack → List StreamTrack)
    → Result StreamError (StreamTrack × Bool)
    → Result StreamError (List StreamTrack × ℕ)
placed payload put_back r = do
  accepted ← r
  ok (put_back (put_payload accepted.1 payload accepted.0), count_if accepted.1 (length payload))

-- One frame: the tracks after it, and the bytes that are counted.
unfoldable pub play_frame :
    Bool → List StreamTrack → Frame → Result StreamError (List StreamTrack × ℕ)
play_frame write_initialization tracks f = do
  found ← selected tracks f.itag
  placed f.payload found.1 (accept_frame found.0 f.kind f.itag f.sequence write_initialization)

unfoldable pub play :
    Bool → List StreamTrack → ℕ → List Frame → ℕ × Result StreamError (List StreamTrack)
play write_initialization tracks counted [] =
    (counted, (do checked ← is_complete tracks; ok tracks))
play write_initialization tracks counted (f ∷ fs) =
    elim (play_frame write_initialization tracks f) [
      | err e ↦ (counted, err e)
      | ok (new, bytes) ↦ play write_initialization new (counted + bytes) fs
    ]

-- The frames of a stream before its completion frame.
abbrev pub IsBody : List Frame → Type 0
IsBody [] = Unit
IsBody (f ∷ fs) = IsFrame f × ((f.kind == frame_complete) ≡ false) × IsBody fs

abbrev pub payload_bytes : List Frame → ℕ
payload_bytes [] = 0
payload_bytes (f ∷ fs) = length f.payload + payload_bytes fs

abbrev pub completion : Frame
completion = record { kind = 3; itag = pos 0; sequence = pos 0; payload = [] }

unfoldable pub encode_body : List Frame → List ℕ
encode_body [] = encode completion
encode_body (f ∷ fs) = encode f ++ encode_body fs

-- Every track has room for `n` more bytes.
abbrev pub Roomy : ℕ → List StreamTrack → Type 0
Roomy n [] = Unit
Roomy n (track ∷ rest) = (n ≤ track.output.room) × Roomy n rest

pub Roomy-le : (n k : ℕ) (tracks : List StreamTrack) → Roomy n tracks → k ≤ n → Roomy k tracks
Roomy-le n k [] h le = tt
Roomy-le n k (track ∷ rest) h le = (omega (arith, h.0), Roomy-le n k rest h.1 le)

-- What `find_track` points at has room, and putting a track back keeps the room of the others.
abbrev pub FoundIn : ℕ → Option (StreamTrack × (StreamTrack → List StreamTrack)) → Type 0
FoundIn n none = Unit
FoundIn n (some (track, put_back)) =
    (n ≤ track.output.room)
    × ((k : ℕ) (new : StreamTrack) → k ≤ n → k ≤ new.output.room → Roomy k (put_back new))

FoundIn-map :
    (n : ℕ) (t : StreamTrack) (o : Option (StreamTrack × (StreamTrack → List StreamTrack)))
    → n ≤ t.output.room
    → FoundIn n o
    → FoundIn n (Option.map (λ found. (found.0, λ new. t ∷ found.1 new)) o)
FoundIn-map n t none h f = tt
FoundIn-map n t (some (track, put_back)) h f =
    (f.0, λ k new le room. (omega arith, f.1 k new le room))

pub find_track-FoundIn :
    (n : ℕ) (tracks : List StreamTrack) (itag : ℤ)
    → Roomy n tracks
    → FoundIn n (find_track tracks itag)
unfolding find_track
find_track-FoundIn n [] itag h = tt
find_track-FoundIn n (t ∷ rest) itag h = elim (Bool-cases (eq_ℤ t.itag itag)) [
  | inl e ↦ rw e (h.0, λ k new le room. (room, Roomy-le n k rest h.1 le))
  | inr e ↦ rw e (FoundIn-map n t (find_track rest itag) h.0 (find_track-FoundIn n rest itag h.1))
]

abbrev pub SelectedIn :
    ℕ → Result StreamError (StreamTrack × (StreamTrack → List StreamTrack)) → Type 0
SelectedIn n (err e) = Unit
SelectedIn n (ok found) = FoundIn n (some found)

selected_cases :
    (n : ℕ) (tracks : List StreamTrack) (itag : ℤ)
    → FoundIn n (find_track tracks itag)
    → SelectedIn n (selected tracks itag)
unfolding selected
selected_cases n tracks itag h = elim (Option-cases (find_track tracks itag)) [
  | inl e ↦ rw (e, selected) tt
  | inr (found, e) ↦ rw (e, selected) (rw e at h)
]

pub selected-FoundIn :
    (n : ℕ) (tracks : List StreamTrack) (itag : ℤ)
    → Roomy n tracks
    → SelectedIn n (selected tracks itag)
selected-FoundIn n tracks itag h = selected_cases n tracks itag (find_track-FoundIn n tracks itag h)
