-- ===== src/Storage/Calls.antt =====
-- What any calls of `Reserve` and of the functions that it returns, in internal/storage/monitor.go, do
-- to the monitor.
use type_type_downloader.Prelude.{
  Bool-cases, List, Option, [], arith, if◌then◌else◌, inl, inr, leb, none, refl, some, true, ℕ, ◌<◌,
  ◌∷◌, ◌≡◌, ◌≤◌, ◌⊎◌,
}
use type_type_downloader.Prelude.Map.{Map, delete-IsMap, get-put, put, put-IsMap}
use type_type_downloader.Prelude.Text.{Str, str_eq}
use type_type_downloader.Prelude.Words.{max_u64}
use type_type_downloader.Storage.{Monitor, Statfs, held, measure, minimum_free, release, reserve}
use type_type_downloader.Storage.Reservations.{
  AllU64-delete, AllU64-put, Fits, IsSound, after-available, free_of, measure-Measured, needed,
  release_lem, reserve_exact, total_of,
}

-- A run of the monitor: other goroutines call in any order, and the disk changes between calls.
pub data Call : Type 0 where
  reserves : Str → ℕ → Option Statfs → Call
  releases : Str → Call

pub step : Monitor → Call → Monitor
step m (reserves id bytes stat) = (reserve m id bytes stat).0
step m (releases id) = release m id

pub run : Monitor → List Call → Monitor
run m [] = m
run m (c ∷ cs) = run (step m c) cs

abbrev pub InRange : Call → Type 0
InRange (reserves id bytes stat) = bytes ≤ max_u64
InRange (releases id) = Unit

abbrev pub AllInRange : List Call → Type 0
AllInRange [] = Unit
AllInRange (c ∷ cs) = InRange c × AllInRange cs

put-IsSound :
    (m : Monitor) (id : Str) (bytes : ℕ)
    → IsSound m
    → bytes ≤ max_u64
    → IsSound (record m { reservations = put id bytes m.reservations })
put-IsSound m id bytes s b = record {
  keys = put-IsMap id bytes m.reservations s.keys;
  fits = AllU64-put id bytes m.reservations b s.fits;
  minimum = s.minimum;
}

release-IsSound : (m : Monitor) (id : Str) → IsSound m → IsSound (release m id)
unfolding release
release-IsSound m id s = record {
  keys = delete-IsMap id m.reservations s.keys;
  fits = AllU64-delete id m.reservations s.fits;
  minimum = s.minimum;
}

pub step-IsSound : (m : Monitor) (c : Call) → IsSound m → InRange c → IsSound (step m c)
unfolding step reserve
step-IsSound m (reserves id bytes none) s b = s
step-IsSound m (reserves id bytes (some stat)) s b = ground (arith, put-IsSound m id bytes s b)
step-IsSound m (releases id) s b = release-IsSound m id s

-- The disk answers all calls alike, or not at all.
abbrev pub Sees : Statfs → Call → Type 0
Sees stat (reserves id bytes none) = Unit
Sees stat (reserves id bytes (some found)) = found ≡ stat
Sees stat (releases id) = Unit

abbrev pub AllSee : Statfs → List Call → Type 0
AllSee stat [] = Unit
AllSee stat (c ∷ cs) = Sees stat c × AllSee stat cs

module _ (stat : Statfs) (large : free_of stat < max_u64) where
  IsMet : Monitor → Type 0
  IsMet m = (measure m stat).available ≡ true

  met-Fits : (m : Monitor) → IsSound m → IsMet m → Fits m stat
  unfolding IsMet
  met-Fits m s met = ground (arith, measure-Measured m stat s, large)

  reserve-IsMet :
      (m : Monitor) (id : Str) (bytes : ℕ)
      → IsSound m
      → IsMet m
      → bytes ≤ max_u64
      → IsMet (reserve m id bytes (some stat)).0
  unfolding IsMet
  reserve-IsMet m id bytes s met b =
      let f = met-Fits m s met in
      elim (Bool-cases (leb (needed m stat id bytes) (free_of stat))) [
        | inl y ↦ after-available m stat id bytes s f (ground arith) b
        | inr n ↦ rw ((reserve_exact m stat id bytes s f).1 (ground arith)).0 met
      ]

  release-IsMet : (m : Monitor) (id : Str) → IsSound m → IsMet m → IsMet (release m id)
  unfolding IsMet
  release-IsMet m id s met = ground (
    arith,
    measure-Measured m stat s,
    measure-Measured (release m id) stat (release-IsSound m id s),
    (release_lem m id id s).0,
    minimum_free-release,
  )
    where
      minimum_free-release :
          minimum_free (release m id) (total_of stat) ≡ minimum_free m (total_of stat)
      minimum_free-release = unfold minimum_free in unfold release in refl

  step-IsMet :
      (m : Monitor) (c : Call) → IsSound m → InRange c → Sees stat c → IsMet m → IsMet (step m c)
  unfolding step reserve
  step-IsMet m (reserves id bytes none) s b sees met = met
  step-IsMet m (reserves id bytes (some found)) s b sees met =
      rw sees (reserve-IsMet m id bytes s met b)
  step-IsMet m (releases id) s b sees met = release-IsMet m id s met

-- What an id may hold after the calls where it held `h` before: a release leaves it nothing, and a
-- call of Reserve gives it its bytes or leaves it as it was.
pub HoldsAfter : Str → ℕ → List Call → ℕ → Type 0
HoldsAfter id h [] after = after ≡ h
HoldsAfter id h (releases j ∷ cs) after = HoldsAfter id (if str_eq j id then 0 else h) cs after
HoldsAfter id h (reserves j bytes none ∷ cs) after = HoldsAfter id h cs after
HoldsAfter id h (reserves j bytes (some stat) ∷ cs) after =
    HoldsAfter id (if str_eq j id then bytes else h) cs after ⊎ HoldsAfter id h cs after

reserve-none : (m : Monitor) (id : Str) (bytes : ℕ) → (reserve m id bytes none).0 ≡ m
unfolding reserve
reserve-none m id bytes = refl

reserve-cases :
    (m : Monitor) (id : Str) (bytes : ℕ) (stat : Statfs)
    → ((reserve m id bytes (some stat)).0 ≡ m)
      ⊎ ((reserve m id bytes (some stat)).0
          ≡ record m { reservations = put id bytes m.reservations })
unfolding reserve
reserve-cases m id bytes stat = ground arith

held-put :
    (id j : Str) (bytes : ℕ) (m : Map ℕ)
    → held id (put j bytes m) ≡ (if str_eq j id then bytes else held id m)
held-put id j bytes m = rw (get-put id j bytes m) (ground arith)

same-HoldsAfter :
    (id : Str) (h : ℕ) (m n : Monitor) (cs : List Call)
    → n ≡ m
    → HoldsAfter id h cs (held id (run m cs).reservations)
    → HoldsAfter id h cs (held id (run n cs).reservations)
same-HoldsAfter id h m n cs q kept = rw q kept

reserved-HoldsAfter :
    (id j : Str) (bytes : ℕ) (stat : Statfs) (m n : Monitor) (cs : List Call)
    → let with_new = record m { reservations = put j bytes m.reservations } in
      (n ≡ m) ⊎ (n ≡ with_new)
      → HoldsAfter id (held id m.reservations) cs (held id (run m cs).reservations)
      → HoldsAfter id (held id with_new.reservations) cs (held id (run with_new cs).reservations)
      → HoldsAfter id
          (held id m.reservations)
          (reserves j bytes (some stat) ∷ cs)
          (held id (run n cs).reservations)
unfolding HoldsAfter
reserved-HoldsAfter id j bytes stat m n cs (inl q) kept new =
    inr (same-HoldsAfter id (held id m.reservations) m n cs q kept)
reserved-HoldsAfter id j bytes stat m n cs (inr q) kept new =
    let with_new = record m { reservations = put j bytes m.reservations } in
    inl (
      rw (← held-put id j bytes m.reservations)
        (same-HoldsAfter id (held id with_new.reservations) with_new n cs q new))

run-HoldsAfter :
    (id : Str) (m : Monitor) (cs : List Call)
    → IsSound m
    → AllInRange cs
    → HoldsAfter id (held id m.reservations) cs (held id (run m cs).reservations)
unfolding run HoldsAfter step
run-HoldsAfter id m [] s b = refl
run-HoldsAfter id m (releases j ∷ cs) s b =
    rw (← (release_lem m j id s).1) (run-HoldsAfter id (release m j) cs (release-IsSound m j s) b.1)
run-HoldsAfter id m (reserves j bytes none ∷ cs) s b =
    same-HoldsAfter id (held id m.reservations) m (reserve m j bytes none).0 cs
      (reserve-none m j bytes) (run-HoldsAfter id m cs s b.1)
run-HoldsAfter id m (reserves j bytes (some stat) ∷ cs) s b =
    let with_new = record m { reservations = put j bytes m.reservations } in
    reserved-HoldsAfter id j bytes stat m (reserve m j bytes (some stat)).0 cs
      (reserve-cases m j bytes stat) (run-HoldsAfter id m cs s b.1)
      (run-HoldsAfter id with_new cs (put-IsSound m j bytes s b.0) b.1)

run-IsMet :
    (stat : Statfs) (m : Monitor) (cs : List Call) (large : free_of stat < max_u64)
    → IsSound m
    → AllInRange cs
    → AllSee stat cs
    → IsMet stat large m
    → IsMet stat large (run m cs)
unfolding run
run-IsMet stat m [] large s b sees met = met
run-IsMet stat m (c ∷ cs) large s b sees met =
    run-IsMet stat (step m c) cs large (step-IsSound m c s b.0) b.1 sees.1
      (step-IsMet stat large m c s b.0 sees.0 met)

-- While the disk answers all calls alike, no sequence of calls of Reserve and of release functions
-- takes it below its threshold, with every reservation counted: if a sound monitor meets the
-- threshold before, it meets it afterwards, whichever of the reservations were accepted. An id holds
-- then what its last calls leave it: nothing after a release, its new bytes or what it held before a
-- call of Reserve, and what it held at first without a call. The arguments are uint64s, and the free
-- space is less than the largest one.
pub run-available :
    (stat : Statfs) (m : Monitor) (cs : List Call) (id : Str)
    → free_of stat < max_u64
    → IsSound m
    → AllInRange cs
    → AllSee stat cs
    → (measure m stat).available ≡ true
    → ((measure (run m cs) stat).available ≡ true)
      × HoldsAfter id (held id m.reservations) cs (held id (run m cs).reservations)
unfolding IsMet
run-available stat m cs id large s b sees met =
    (run-IsMet stat m cs large s b sees met, run-HoldsAfter id m cs s b)
