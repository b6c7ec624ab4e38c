-- ===== src/Sabr/Stream/Outcome.antt =====
-- What `consumeDownloadStream` of internal/sabr/stream_protocol.go leaves behind when it accepts.
use mathlib.Core.Option
use type_type_downloader.Prelude.{
  Bool, Bool-cases, List, Option, Option-cases, [], ap, append-nil, append_assoc, arith, false, inl,
  inr, none, not, refl, some, sym, true, ℕ, ◌++◌, ◌+◌, ◌||◌, ◌∙◌, ◌∷◌, ◌≡◌,
}
use type_type_downloader.Prelude.Int.{eq_ℤ, ℤ}
use type_type_downloader.Prelude.Result.{Result, Result-cases, err, ok, ◌>>=◌}
use type_type_downloader.Sabr.{StreamTrack}
use type_type_downloader.Sabr.Stream.{StreamError, accept_frame, find_track, is_complete, selected}
use type_type_downloader.Sabr.Stream.Codec.{Frame}
use type_type_downloader.Sabr.Stream.Play.{placed, play, play_frame, put_payload}
use type_type_downloader.Sabr.Stream.Tracks.{
  AllGrow, Continues-append, Distinct, Grows, Lacks, accepted-Grows, itags, media_sequence,
  media_sequences, payloads, piece, untouched-Grows,
}

-- The tracks as `itags` sees them do not change, and every track grows by the frame, if it is its.
abbrev StepGrows : Bool → Frame → List StreamTrack → List StreamTrack → Type 0
StepGrows wi f [] [] = Unit
StepGrows wi f [] (new ∷ rest') = ⊥
StepGrows wi f (old ∷ rest) [] = ⊥
StepGrows wi f (old ∷ rest) (new ∷ rest') =
    Grows (piece wi old.itag f) (media_sequence old.itag f) old new × StepGrows wi f rest rest'

itags-StepGrows :
    (wi : Bool) (f : Frame) (a b : List StreamTrack) → StepGrows wi f a b → itags b ≡ itags a
itags-StepGrows wi f [] [] h = refl
itags-StepGrows wi f [] (b ∷ bs) h = absurd h
itags-StepGrows wi f (a ∷ r) [] h = absurd h
itags-StepGrows wi f (a ∷ r) (b ∷ bs) h = cc (h.0.0, itags-StepGrows wi f r bs h.1)

StepGrows-cons :
    (wi : Bool) (f : Frame) (fs : List Frame) (a b c : List StreamTrack)
    → StepGrows wi f a b
    → AllGrow wi fs b c
    → AllGrow wi (f ∷ fs) a c
StepGrows-cons wi f fs [] [] [] h k = tt
StepGrows-cons wi f fs [] [] (z ∷ zs) h k = absurd k
StepGrows-cons wi f fs [] (y ∷ ys) c h k = absurd h
StepGrows-cons wi f fs (x ∷ xs) [] c h k = absurd h
StepGrows-cons wi f fs (x ∷ xs) (y ∷ ys) [] h k = absurd k
StepGrows-cons wi f fs (x ∷ xs) (y ∷ ys) (z ∷ zs) ((i, w, s), h) ((i', w', s'), k) = (
  (
    i' ∙ i,
    (rw i at w')
        ∙ ap (λ b. b ++ payloads wi x.itag fs) w
        ∙ append_assoc x.output.written (piece wi x.itag f) (payloads wi x.itag fs),
    Continues-append x.next_sequence y.next_sequence z.next_sequence (media_sequence x.itag f)
        (media_sequences x.itag fs) s (rw i at s'),
  ),
  StepGrows-cons wi f fs xs ys zs h k,
)

AllGrow-nil : (wi : Bool) (a : List StreamTrack) → AllGrow wi [] a a
AllGrow-nil wi [] = tt
AllGrow-nil wi (t ∷ ts) = ((refl, sym (append-nil t.output.written), refl), AllGrow-nil wi ts)

-- No track of the rest has the frame's itag.
untouched :
    (wi : Bool) (f : Frame) (i : ℤ) (ts : List StreamTrack)
    → eq_ℤ i f.itag ≡ true
    → Lacks i (itags ts)
    → StepGrows wi f ts ts
untouched wi f i [] e h = tt
untouched wi f i (t ∷ ts) e h =
    (untouched-Grows wi t f (ground (arith, h.0)), untouched wi f i ts e h.1)

-- What the slot that `find_track` gives does when the frame's track is put back.
abbrev SlotGrows :
    Bool
    → Frame
    → List StreamTrack
    → Option (StreamTrack × (StreamTrack → List StreamTrack))
    → Type 0
SlotGrows wi f ts none = Unit
SlotGrows wi f ts (some (track, put_back)) =
    (eq_ℤ track.itag f.itag ≡ true)
    × ((new : StreamTrack)
        → Grows (piece wi track.itag f) (media_sequence track.itag f) track new
        → StepGrows wi f ts (put_back new))

SlotGrows-map :
    (wi : Bool) (f : Frame) (t : StreamTrack) (ts : List StreamTrack)
    (o : Option (StreamTrack × (StreamTrack → List StreamTrack)))
    → eq_ℤ t.itag f.itag ≡ false
    → SlotGrows wi f ts o
    → SlotGrows wi f (t ∷ ts) (Option.map (λ found. (found.0, λ new. t ∷ found.1 new)) o)
SlotGrows-map wi f t ts none e h = tt
SlotGrows-map wi f t ts (some (track, put_back)) e h =
    (h.0, λ new g. (untouched-Grows wi t f e, h.1 new g))

find_track-SlotGrows :
    (wi : Bool) (f : Frame) (ts : List StreamTrack)
    → Distinct (itags ts)
    → SlotGrows wi f ts (find_track ts f.itag)
unfolding find_track
find_track-SlotGrows wi f [] d = tt
find_track-SlotGrows wi f (t ∷ ts) d = elim (Bool-cases (eq_ℤ t.itag f.itag)) [
  | inl e ↦ rw e (e, λ new g. (g, untouched wi f t.itag ts e d.0))
  | inr e ↦
      rw e (SlotGrows-map wi f t ts (find_track ts f.itag) e (find_track-SlotGrows wi f ts d.1))
]

abbrev SlotIn :
    Bool
    → Frame
    → List StreamTrack
    → Result StreamError (StreamTrack × (StreamTrack → List StreamTrack))
    → Type 0
SlotIn wi f ts (err e) = Unit
SlotIn wi f ts (ok found) = SlotGrows wi f ts (some found)

selected-SlotIn :
    (wi : Bool) (f : Frame) (ts : List StreamTrack)
    → SlotGrows wi f ts (find_track ts f.itag)
    → SlotIn wi f ts (selected ts f.itag)
unfolding selected
selected-SlotIn wi f ts h = elim (Option-cases (find_track ts f.itag)) [
  | inl e ↦ rw (e, selected) tt
  | inr (found, e) ↦ rw (e, selected) (rw e at h)
]

placed_grows :
    (wi : Bool) (f : Frame) (ts : List StreamTrack)
    (s : Result StreamError (StreamTrack × (StreamTrack → List StreamTrack)))
    {new : List StreamTrack} {bytes : ℕ}
    → SlotIn wi f ts s
    → (do found ← s; placed f.payload found.1 (accept_frame found.0 f.kind f.itag f.sequence wi))
      ≡ ok (new, bytes)
    → StepGrows wi f ts new
placed_grows wi f ts (err x) h e = absurd (cc)
placed_grows wi f ts (ok (track, put_back)) {new} {bytes} h e =
    elim (Result-cases (accept_frame track f.kind f.itag f.sequence wi)) [
      | inr (x, r) ↦ absurd (cc (rw r at e))
      | inl ((t', writes), r) ↦
          let same : put_back (put_payload writes f.payload t') ≡ new = cc (rw r at e) in
          rw (← same)
            (h.1 (put_payload writes f.payload t') (accepted-Grows wi track f t' writes h.0 r))
    ]

play_frame-StepGrows :
    (wi : Bool) (f : Frame) (ts new : List StreamTrack) (bytes : ℕ)
    → Distinct (itags ts)
    → play_frame wi ts f ≡ ok (new, bytes)
    → StepGrows wi f ts new
unfolding play_frame
play_frame-StepGrows wi f ts new bytes d e =
    placed_grows wi f ts (selected ts f.itag)
      (selected-SlotIn wi f ts (find_track-SlotGrows wi f ts d)) e

abbrev pub AllComplete : List StreamTrack → Type 0
AllComplete [] = Unit
AllComplete (t ∷ ts) = (t.initialized ≡ true) × (t.media_written ≡ true) × AllComplete ts

is_complete-AllComplete : (ts : List StreamTrack) → is_complete ts ≡ ok tt → AllComplete ts
is_complete-AllComplete [] e = tt
is_complete-AllComplete (t ∷ ts) e = elim (Bool-cases (not t.initialized || not t.media_written)) [
  | inl missing ↦ absurd (cc (rw missing at e))
  | inr there ↦ (ground arith, ground arith, is_complete-AllComplete ts (rw there at e))
]

-- When a stream is accepted for tracks of different itags, every track has been initialized and has
-- media; its file has grown by the payloads of its own frames, in their order, with initialization
-- data in the part that writes it, and its media are numbered without a gap.
pub play-AllGrow :
    (wi : Bool) (fs : List Frame) (ts : List StreamTrack) (counted : ℕ) (n : ℕ)
    (new : List StreamTrack)
    → Distinct (itags ts)
    → play wi ts counted fs ≡ (n, ok new)
    → AllGrow wi fs ts new × AllComplete new
unfolding play
play-AllGrow wi [] ts counted n new d e = elim (Result-cases (is_complete ts)) [
  | inr (x, r) ↦ absurd (cc (rw r at e))
  | inl (u, r) ↦
      let same : ts ≡ new = cc (rw r at e) in
      rw (← same) (AllGrow-nil wi ts, is_complete-AllComplete ts r)
]
play-AllGrow wi (f ∷ fs) ts counted n new d e = elim (Result-cases (play_frame wi ts f)) [
  | inr (x, r) ↦ absurd (cc (rw (r, play) at e))
  | inl ((mid, bytes), r) ↦
      let grown = play_frame-StepGrows wi f ts mid bytes d r in
      let rest =
        play-AllGrow wi fs mid (counted + bytes) n new (rw (itags-StepGrows wi f ts mid grown) d)
          (rw (r, play) at e) in
      (StepGrows-cons wi f fs ts mid new grown rest.0, rest.1)
]
