-- ===== src/Sabr/Stream/Tracks.antt =====
-- What an accepted SABR stream leaves in the files of its tracks.
use type_type_downloader.Prelude.{
  Bool, Bool-cases, List, [], append-nil, arith, false, if◌then◌else◌, inl, inr, map, not, refl,
  sym, true, ℕ, ◌&&◌, ◌++◌, ◌==◌, ◌||◌, ◌∷◌, ◌≡◌, ◌⊎◌,
}
use type_type_downloader.Prelude.Int.{eq_ℤ, ltb_ℤ, pos, ℤ, ◌+ℤ◌}
use type_type_downloader.Prelude.Result.{Result, err, ok}
use type_type_downloader.Sabr.{StreamTrack}
use type_type_downloader.Sabr.Stream.{
  StreamError, accept_frame, frame_initialization, frame_media, out_of_order,
}
use type_type_downloader.Sabr.Stream.Codec.{Frame}
use type_type_downloader.Sabr.Stream.Play.{put_payload}

-- What a frame adds to the file of the track `itag`: the payload of media, and of initialization
-- data in the part that writes it.
abbrev pub piece : Bool → ℤ → Frame → List ℕ
piece wi itag f = if eq_ℤ itag f.itag && (f.kind == frame_media || wi) then f.payload else []

abbrev pub payloads : Bool → ℤ → List Frame → List ℕ
payloads wi itag [] = []
payloads wi itag (f ∷ fs) = piece wi itag f ++ payloads wi itag fs

abbrev pub media_sequence : ℤ → Frame → List ℤ
media_sequence itag f = if eq_ℤ itag f.itag && f.kind == frame_media then f.sequence ∷ [] else []

abbrev pub media_sequences : ℤ → List Frame → List ℤ
media_sequences itag [] = []
media_sequences itag (f ∷ fs) = media_sequence itag f ++ media_sequences itag fs

-- The numbers are positive and each is one more than the last; the first is the one expected,
-- unless that is still 0.
abbrev pub Continues : ℤ → List ℤ → ℤ → Type 0
Continues expected [] next = expected ≡ next
Continues expected (s ∷ rest) next =
    (ltb_ℤ (pos 0) s ≡ true)
    × ((expected ≡ pos 0) ⊎ (expected ≡ s))
    × Continues (s +ℤ pos 1) rest next

abbrev pub Grows : List ℕ → List ℤ → StreamTrack → StreamTrack → Type 0
Grows bytes sequences old new =
    (new.itag ≡ old.itag)
    × (new.output.written ≡ old.output.written ++ bytes)
    × Continues old.next_sequence sequences new.next_sequence

-- Each track has grown by its own frames.
abbrev pub AllGrow : Bool → List Frame → List StreamTrack → List StreamTrack → Type 0
AllGrow wi fs [] [] = Unit
AllGrow wi fs [] (new ∷ rest') = ⊥
AllGrow wi fs (old ∷ rest) [] = ⊥
AllGrow wi fs (old ∷ rest) (new ∷ rest') =
    Grows (payloads wi old.itag fs) (media_sequences old.itag fs) old new × AllGrow wi fs rest rest'

abbrev pub itags : List StreamTrack → List ℤ
itags = map (λ t. t.itag)

abbrev pub Lacks : ℤ → List ℤ → Type 0
Lacks i [] = Unit
Lacks i (j ∷ rest) = (eq_ℤ j i ≡ false) × Lacks i rest

abbrev pub Distinct : List ℤ → Type 0
Distinct [] = Unit
Distinct (i ∷ rest) = Lacks i rest × Distinct rest

pub Continues-append :
    (n k m : ℤ) (a b : List ℤ) → Continues n a k → Continues k b m → Continues n (a ++ b) m
Continues-append n k m [] b e h = rw e h
Continues-append n k m (s ∷ a) b (p, q, r) h = (p, q, Continues-append (s +ℤ pos 1) k m a b r h)

eq_ℤ-eq : (a b : ℤ) → eq_ℤ a b ≡ true → a ≡ b
eq_ℤ-eq a b h = ground arith

module _ (wi : Bool) (t : StreamTrack) (f : Frame) where
  Accepts : StreamTrack → Bool → Type 0
  unfolding accept_frame
  Accepts new writes = accept_frame t f.kind f.itag f.sequence wi ≡ ok (new, writes)

  initialization_accepted :
      (new : StreamTrack) (writes : Bool)
      → (f.kind == frame_initialization) ≡ true
      → Accepts new writes
      → (new ≡ record t { initialized = true }) × (writes ≡ wi)
  unfolding Accepts
  initialization_accepted new writes k e = ground arith

  abbrev MediaState : StreamTrack → Bool → Type 0
  MediaState new writes =
      (new ≡ record t { next_sequence = f.sequence +ℤ pos 1; media_written = true })
      × (writes ≡ true)
      × (ltb_ℤ (pos 0) f.sequence ≡ true)
      × ((t.next_sequence ≡ pos 0) ⊎ (t.next_sequence ≡ f.sequence))

  abbrev media_from : ℤ → Result StreamError (StreamTrack × Bool)
  media_from expected =
      if not t.initialized || not (ltb_ℤ (pos 0) f.sequence) || not (eq_ℤ f.sequence expected)
      then err (out_of_order t.itag f.sequence expected)
      else ok (record t { next_sequence = expected +ℤ pos 1; media_written = true }, true)

  media_fresh :
      (new : StreamTrack) (writes : Bool)
      → eq_ℤ t.next_sequence (pos 0) ≡ true
      → media_from f.sequence ≡ ok (new, writes)
      → MediaState new writes
  media_fresh new writes z e = ground (arith, eq_ℤ-eq t.next_sequence (pos 0) z)

  media_next :
      (new : StreamTrack) (writes : Bool)
      → media_from t.next_sequence ≡ ok (new, writes)
      → MediaState new writes
  media_next new writes e = ground (arith, eq_ℤ-eq f.sequence t.next_sequence)

  media_accepted :
      (new : StreamTrack) (writes : Bool)
      → (f.kind == frame_initialization) ≡ false
      → (f.kind == frame_media) ≡ true
      → Accepts new writes
      → MediaState new writes
  unfolding Accepts
  media_accepted new writes k m e = elim (Bool-cases (eq_ℤ t.next_sequence (pos 0))) [
    | inl z ↦ media_fresh new writes z (rw (k, m, z) at e)
    | inr n ↦ media_next new writes (rw (k, m, n) at e)
  ]

  others_refused :
      (new : StreamTrack) (writes : Bool)
      → (f.kind == frame_initialization) ≡ false
      → (f.kind == frame_media) ≡ false
      → ¬ Accepts new writes
  unfolding Accepts
  others_refused new writes k m e = ground arith

  initialization-Grows :
      (writes : Bool)
      → eq_ℤ t.itag f.itag ≡ true
      → (f.kind == frame_media) ≡ false
      → writes ≡ wi
      → Grows
          (piece wi t.itag f)
          (media_sequence t.itag f)
          t
          (put_payload writes f.payload (record t { initialized = true }))
  initialization-Grows true same k e = rw (same, k, ← e) (refl, refl, refl)
  initialization-Grows false same k e =
      rw (same, k, ← e) (refl, sym (append-nil t.output.written), refl)

  pub untouched-Grows :
      eq_ℤ t.itag f.itag ≡ false → Grows (piece wi t.itag f) (media_sequence t.itag f) t t
  untouched-Grows other = rw other (refl, sym (append-nil t.output.written), refl)

  media-Grows :
      (new : StreamTrack) (writes : Bool)
      → eq_ℤ t.itag f.itag ≡ true
      → (f.kind == frame_media) ≡ true
      → MediaState new writes
      → Grows (piece wi t.itag f) (media_sequence t.itag f) t (put_payload writes f.payload new)
  media-Grows new writes same k (state, all, positive, next) =
      rw (same, k, state, all) (refl, refl, (positive, next, refl))

  pub accepted-Grows :
      (new : StreamTrack) (writes : Bool)
      → eq_ℤ t.itag f.itag ≡ true
      → accept_frame t f.kind f.itag f.sequence wi ≡ ok (new, writes)
      → Grows (piece wi t.itag f) (media_sequence t.itag f) t (put_payload writes f.payload new)
  unfolding Accepts
  accepted-Grows new writes same e = elim (Bool-cases (f.kind == frame_initialization)) [
    | inl k ↦
        let (state, all) = initialization_accepted new writes k e in
        rw state (initialization-Grows writes same (ground arith) all)
    | inr k ↦ elim (Bool-cases (f.kind == frame_media)) [
      | inl m ↦ media-Grows new writes same m (media_accepted new writes k m e)
      | inr m ↦ absurd (others_refused new writes k m e)
    ]
  ]
