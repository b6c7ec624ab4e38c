-- ===== src/Storage.antt =====
-- internal/storage/monitor.go: the disk monitor, its threshold and its reservations. A call runs
-- under the monitor's mutex, so it is one step. `Statfs` is an argument of each call: what the
-- system answered, or none for an error.
pub mod Sums
use mathlib.Core.Option
pub mod Calls
pub mod Reservations
use type_type_downloader.Prelude.{
  Bool, Option, [], if◌then◌else◌, leb, ltb, max, min, none, some, ℕ, ◌*◌, ◌+◌, ◌-◌, ◌/◌, ◌∷◌,
}
use type_type_downloader.Prelude.Int.{pos_part, ℤ}
use type_type_downloader.Prelude.Map.{Map, delete, get, put}
use type_type_downloader.Prelude.Result.{Result, err, ok, ◌>>=◌}
use type_type_downloader.Prelude.Text.{Str}
use type_type_downloader.Prelude.Words.{max_u64, sub_u64, u64}

-- unix.Statfs_t: block counts and the block size, as uint64.
pub record Statfs : Type 0 where
  pub blocks : ℕ
  pub bavail : ℕ
  pub bsize : ℕ

pub record Capacity : Type 0 where
  pub total_bytes : ℕ
  pub free_bytes : ℕ
  pub required_free_bytes : ℕ
  pub reserved_bytes : ℕ
  pub available : Bool

pub record Monitor : Type 0 where
  pub min_free_bytes : ℕ
  pub min_free_percent : ℕ
  pub reservations : Map ℕ

pub data StorageError : Type 0 where
  mkdir_failed statfs_failed : StorageError
  insufficient_storage : ℕ → ℕ → ℕ → StorageError
  below_required : ℕ → ℕ → StorageError

-- `mkdir` says whether os.MkdirAll succeeded.
pub new_monitor : Bool → ℤ → ℤ → Result StorageError Monitor
new_monitor mkdir min_free_bytes min_free_percent =
    if mkdir
    then ok (record {
      min_free_bytes = pos_part min_free_bytes;
      min_free_percent = min (pos_part min_free_percent) 100;
      reservations = [];
    })
    else err mkdir_failed

pub saturated_add : ℕ → ℕ → ℕ
saturated_add left right = if ltb (max_u64 - left) right then max_u64 else left + right

-- The loop of `check` over the reservations.
pub add_reservations : ℕ → Map ℕ → ℕ
add_reservations reserved [] = reserved
add_reservations reserved ((id, bytes) ∷ rest) =
    add_reservations (saturated_add reserved bytes) rest

unfoldable pub minimum_free : Monitor → ℕ → ℕ
minimum_free m total = max m.min_free_bytes (u64 (total * m.min_free_percent) / 100)

pub measure : Monitor → Statfs → Capacity
measure m stat =
    let total = u64 (stat.blocks * stat.bsize) in
    let free = u64 (stat.bavail * stat.bsize) in
    let reserved = add_reservations 0 m.reservations in
    let required = saturated_add (minimum_free m total) reserved in
    record {
      total_bytes = total;
      free_bytes = free;
      required_free_bytes = required;
      reserved_bytes = reserved;
      available = leb required free;
    }

pub check : Monitor → Option Statfs → Result StorageError Capacity
check m none = err statfs_failed
check m (some stat) = ok (measure m stat)

pub health : Monitor → Option Statfs → Result StorageError Unit
health m stat = do
  capacity ← check m stat
  if capacity.available
      then ok tt
      else err (below_required capacity.free_bytes capacity.required_free_bytes)

-- A missing key reads as 0.
abbrev pub held : Str → Map ℕ → ℕ
held id m = Option.get_or (get id m) 0

unfoldable pub reserve_within : Monitor → Str → ℕ → Capacity → Monitor × Result StorageError Unit
reserve_within m id bytes capacity =
    let previous = held id m.reservations in
    let reserved = sub_u64 capacity.reserved_bytes previous in
    let required = saturated_add (sub_u64 capacity.required_free_bytes previous) bytes in
    if ltb capacity.free_bytes required
    then (m, err (insufficient_storage required capacity.free_bytes reserved))
    else (record m { reservations = put id bytes m.reservations }, ok tt)

-- The function that `Reserve` returns is `release` of the same id.
unfoldable pub reserve : Monitor → Str → ℕ → Option Statfs → Monitor × Result StorageError Unit
unfolding reserve_within check
reserve m id bytes none = (m, err statfs_failed)
reserve m id bytes (some stat) = reserve_within m id bytes (measure m stat)

unfoldable pub release : Monitor → Str → Monitor
release m id = record m { reservations = delete id m.reservations }
