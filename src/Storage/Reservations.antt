-- ===== src/Storage/Reservations.antt =====
-- What `Reserve`, its release function and `check` of internal/storage/monitor.go promise.
use type_type_downloader.Prelude.{
  Bool-cases, [], arith, false, if◌then◌else◌, inl, inr, leb, min, refl, some, true, ℕ, ◌*◌, ◌+◌,
  ◌-◌, ◌<◌, ◌∷◌, ◌≡◌, ◌≤◌,
}
use type_type_downloader.Prelude.Map.{IsMap, Map, delete, get, get-delete, put, put-IsMap}
use type_type_downloader.Prelude.Result.{is_ok, ok}
use type_type_downloader.Prelude.Text.{Str, str_eq}
use type_type_downloader.Prelude.Words.{max_u64, sub_u64, u64}
use type_type_downloader.Storage.{
  Capacity, Monitor, Statfs, add_reservations, held, measure, minimum_free, release, reserve,
  saturated_add,
}
use type_type_downloader.Storage.Sums.{
  AllU64, add_reservations-min, held-le-total, saturated_add-min, total, total-delete, total-put,
}

-- What the other jobs have reserved.
abbrev pub others : Str → Map ℕ → ℕ
others id m = total m - held id m

pub record IsSound (m : Monitor) : Type 0 where
  pub keys : IsMap m.reservations
  pub fits : AllU64 m.reservations
  pub minimum : m.min_free_bytes ≤ max_u64

pub AllU64-put :
    (id : Str) (bytes : ℕ) (m : Map ℕ) → bytes ≤ max_u64 → AllU64 m → AllU64 (put id bytes m)
unfolding put
AllU64-put id bytes [] b h = (b, tt)
AllU64-put id bytes ((j, w) ∷ m) b h = elim (Bool-cases (str_eq j id)) [
  | inl e ↦ rw e (b, h.1)
  | inr e ↦ rw e (h.0, AllU64-put id bytes m b h.1)
]

pub AllU64-delete : (id : Str) (m : Map ℕ) → AllU64 m → AllU64 (delete id m)
unfolding delete
AllU64-delete id [] h = tt
AllU64-delete id ((j, w) ∷ m) h = elim (Bool-cases (str_eq j id)) [
  | inl e ↦ rw e (AllU64-delete id m h.1)
  | inr e ↦ rw e (h.0, AllU64-delete id m h.1)
]

AllU64-held : (id : Str) (m : Map ℕ) → AllU64 m → held id m ≤ max_u64
unfolding get
AllU64-held id [] h = omega arith
AllU64-held id ((j, w) ∷ m) h = ground (arith, AllU64-held id m)

minimum_free-le : (m : Monitor) (t : ℕ) → m.min_free_bytes ≤ max_u64 → minimum_free m t ≤ max_u64
unfolding minimum_free
minimum_free-le m t h = omega arith

abbrev pub total_of : Statfs → ℕ
total_of stat = u64 (stat.blocks * stat.bsize)

abbrev pub free_of : Statfs → ℕ
free_of stat = u64 (stat.bavail * stat.bsize)

-- What the capacity report says, with the sums written out.
pub record Measured (m : Monitor) (stat : Statfs) (c : Capacity) : Type 0 where
  pub free : c.free_bytes ≡ free_of stat
  pub reserved : c.reserved_bytes ≡ min (total m.reservations) max_u64
  pub required :
      c.required_free_bytes ≡ min (minimum_free m (total_of stat) + total m.reservations) max_u64
  pub available : c.available ≡ leb c.required_free_bytes c.free_bytes

-- On a sound monitor the report holds the free bytes, the sum of the reservations and the required
-- bytes, both cut at the largest uint64, and says whether the required bytes are free.
pub measure-Measured : (m : Monitor) (stat : Statfs) → IsSound m → Measured m stat (measure m stat)
unfolding measure
measure-Measured m stat h = record {
  free = refl;
  reserved = omega (arith, add_reservations-min 0 m.reservations (omega arith));
  required = omega (
    arith,
    add_reservations-min 0 m.reservations (omega arith),
    saturated_add-min (minimum_free m (total_of stat)) (add_reservations 0 m.reservations)
        (minimum_free-le m _ h.minimum),
  );
  available = refl;
}

-- Where nothing saturates, the requirement is exact.
abbrev pub Fits : Monitor → Statfs → Type 0
Fits m stat =
    (minimum_free m (total_of stat) + total m.reservations ≤ max_u64) × (free_of stat < max_u64)

abbrev pub needed : Monitor → Statfs → Str → ℕ → ℕ
needed m stat id bytes = minimum_free m (total_of stat) + others id m.reservations + bytes

module _ (m : Monitor) (stat : Statfs) (id : Str) (bytes : ℕ) (s : IsSound m)
    (f : Fits m stat) where
  required_lem :
      saturated_add (sub_u64 (measure m stat).required_free_bytes (held id m.reservations)) bytes
      ≡ min (needed m stat id bytes) max_u64
  required_lem = omega (
    arith,
    (measure-Measured m stat s).required,
    held-le-total id m.reservations,
    saturated_add-min (sub_u64 (measure m stat).required_free_bytes (held id m.reservations)) bytes
        (omega arith),
  )

  -- On a sound monitor, where the threshold and the reservations together are a uint64 and the free
  -- space is less than the largest one, Reserve accepts exactly when the threshold, the reservations
  -- of the other jobs and the new one fit into the free space; then it records the reservation and
  -- changes nothing else. When it refuses, the monitor stays as it was.
  pub reserve_exact :
      (needed m stat id bytes ≤ free_of stat
        → reserve m id bytes (some stat)
          ≡ (record m { reservations = put id bytes m.reservations }, ok tt))
      × (free_of stat < needed m stat id bytes
          → (reserve m id bytes (some stat)).0 ≡ m
            × (is_ok (reserve m id bytes (some stat)).1 ≡ false))
  unfolding reserve
  reserve_exact = (
    λ h. ground (arith, required_lem, (measure-Measured m stat s).free),
    λ h. (
      ground (arith, required_lem, (measure-Measured m stat s).free),
      ground (arith, required_lem, (measure-Measured m stat s).free),
    ),
  )

  after : Monitor
  after = record m { reservations = put id bytes m.reservations }

  accepted_fits :
      is_ok (reserve m id bytes (some stat)).1 ≡ true → needed m stat id bytes ≤ free_of stat
  accepted_fits accepted = elim (Bool-cases (leb (needed m stat id bytes) (free_of stat))) [
    | inl y ↦ ground arith
    | inr n ↦ absurd (cc (accepted, (reserve_exact.1 (ground arith)).1))
  ]

  pub after-available :
      needed m stat id bytes ≤ free_of stat
      → bytes ≤ max_u64
      → (measure (reserve m id bytes (some stat)).0 stat).available ≡ true
  unfolding after
  after-available h b = rw (reserve_exact.0 h) (
      ground (
        arith,
        measure-Measured after stat (record {
          keys = put-IsMap id bytes m.reservations s.keys;
          fits = AllU64-put id bytes m.reservations b s.fits;
          minimum = s.minimum;
        }),
        total-put id bytes m.reservations,
        held-le-total id m.reservations,
        minimum_free-after,
      ))
    where
      minimum_free-after : minimum_free after (total_of stat) ≡ minimum_free m (total_of stat)
      minimum_free-after = unfold minimum_free in refl

  -- A reservation that Reserve accepts leaves the disk at or above its threshold, with every
  -- reservation counted. The monitor is sound, the threshold and the reservations before the call
  -- are together a uint64, as the new reservation is, and the free space is less than the largest one.
  pub reserve-available :
      is_ok (reserve m id bytes (some stat)).1 ≡ true
      → bytes ≤ max_u64
      → (measure (reserve m id bytes (some stat)).0 stat).available ≡ true
  reserve-available accepted b = after-available (accepted_fits accepted) b

-- On a sound monitor the release function of a reservation gives it back: the sum falls by what the
-- id held, the other ids keep theirs, and the id holds nothing.
pub release_lem :
    (m : Monitor) (id j : Str)
    → IsSound m
    → (total (release m id).reservations + held id m.reservations ≡ total m.reservations)
      × (held j (release m id).reservations ≡ (if str_eq id j then 0 else held j m.reservations))
unfolding release
release_lem m id j s =
    (total-delete id m.reservations s.keys, rw (get-delete j id m.reservations) (ground arith))
