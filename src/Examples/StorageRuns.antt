-- ===== src/Examples/StorageRuns.antt =====
-- Runs of internal/storage.
use type_type_downloader.Prelude.{List, [], arith, refl, some, true, ◌∷◌, ◌≡◌, ◌≤◌}
use type_type_downloader.Prelude.Map.{get, put}
use type_type_downloader.Prelude.Result.{is_ok, ok}
use type_type_downloader.Prelude.Text.{lit, str_eq}
use type_type_downloader.Storage.{Monitor, Statfs, held, measure, minimum_free, reserve}
use type_type_downloader.Storage.Calls.{Call, HoldsAfter, releases, reserves, run, run-available}
use type_type_downloader.Storage.Reservations.{
  Fits, IsSound, measure-Measured, needed, reserve-available, reserve_exact,
}

abbrev disk : Monitor
disk = record { min_free_bytes = 100; min_free_percent = 10; reservations = (lit "a", 50) ∷ [] }

abbrev stat : Statfs
stat = record { blocks = 1000; bavail = 500; bsize = 1 }

disk-IsSound : IsSound disk
unfolding get
disk-IsSound = record { keys = (refl, tt); fits = (omega arith, tt); minimum = omega arith }

disk-Fits : Fits disk stat
unfolding minimum_free
disk-Fits = (omega arith, omega arith)

-- The second call is refused.
abbrev calls : List Call
calls =
    reserves (lit "b") 30 (some stat) ∷ reserves (lit "c") 900 (some stat) ∷ releases (lit "a") ∷ []

disk_met : (measure disk stat).available ≡ true
unfolding minimum_free
disk_met = ground (arith, measure-Measured disk stat disk-IsSound)

run_example :
    ((measure (run disk calls) stat).available ≡ true)
    × HoldsAfter
        (lit "a")
        (held (lit "a") disk.reservations)
        calls
        (held (lit "a") (run disk calls).reservations)
run_example =
    run-available stat disk calls (lit "a") (omega arith) disk-IsSound
      (omega arith, (omega arith, (tt, tt))) (refl, (refl, (tt, tt))) disk_met

needed_b : needed disk stat (lit "b") 30 ≤ 500
unfolding minimum_free get str_eq
needed_b = omega arith

accepted_b : is_ok (reserve disk (lit "b") 30 (some stat)).1 ≡ true
accepted_b = rw ((reserve_exact disk stat (lit "b") 30 disk-IsSound disk-Fits).0 needed_b) refl

reserve_exact_example :
    reserve disk (lit "b") 30 (some stat)
    ≡ (record disk { reservations = put (lit "b") 30 disk.reservations }, ok tt)
reserve_exact_example = (reserve_exact disk stat (lit "b") 30 disk-IsSound disk-Fits).0 needed_b

reserve-available_example :
    (measure (reserve disk (lit "b") 30 (some stat)).0 stat).available ≡ true
reserve-available_example =
    reserve-available disk stat (lit "b") 30 disk-IsSound disk-Fits accepted_b (omega arith)
