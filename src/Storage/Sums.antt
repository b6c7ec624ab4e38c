-- ===== src/Storage/Sums.antt =====
-- Saturating sums of internal/storage/monitor.go: what the loop of `check` computes.
use type_type_downloader.Prelude.{
  Bool-cases, [], arith, inl, inr, min, none, refl, ℕ, ◌+◌, ◌∷◌, ◌≡◌, ◌≤◌,
}
use type_type_downloader.Prelude.Map.{IsMap, Map, delete, get, put}
use type_type_downloader.Prelude.Text.{Str, str_eq, str_eq_iff}
use type_type_downloader.Prelude.Words.{max_u64}
use type_type_downloader.Storage.{add_reservations, held, saturated_add}

-- The true sum of the reservations.
abbrev pub total : Map ℕ → ℕ
total [] = 0
total ((id, bytes) ∷ rest) = bytes + total rest

-- A uint64 holds less than 2 ^ 64.
abbrev pub AllU64 : Map ℕ → Type 0
AllU64 [] = Unit
AllU64 ((id, bytes) ∷ rest) = (bytes ≤ max_u64) × AllU64 rest

pub saturated_add-min : (a b : ℕ) → a ≤ max_u64 → saturated_add a b ≡ min (a + b) max_u64
unfolding saturated_add
saturated_add-min a b h = ground arith

pub add_reservations-min :
    (acc : ℕ) (m : Map ℕ) → acc ≤ max_u64 → add_reservations acc m ≡ min (acc + total m) max_u64
unfolding add_reservations
add_reservations-min acc [] h = omega arith
add_reservations-min acc ((id, bytes) ∷ rest) h = omega (
  arith,
  saturated_add-min acc bytes h,
  add_reservations-min (saturated_add acc bytes) rest
      (omega (arith, saturated_add-min acc bytes h)),
)

pub total-put :
    (id : Str) (bytes : ℕ) (m : Map ℕ) → total (put id bytes m) + held id m ≡ total m + bytes
unfolding put get
total-put id bytes [] = omega arith
total-put id bytes ((j, w) ∷ m) = ground (arith, total-put id bytes m)

total-delete-none : (id : Str) (m : Map ℕ) → get id m ≡ none → total (delete id m) ≡ total m
unfolding delete get
total-delete-none id [] h = refl
total-delete-none id ((j, w) ∷ m) h = ground (arith, total-delete-none id m)

pub total-delete : (id : Str) (m : Map ℕ) → IsMap m → total (delete id m) + held id m ≡ total m
unfolding delete get
total-delete id [] h = omega arith
total-delete id ((j, w) ∷ m) h = elim (Bool-cases (str_eq j id)) [
  | inl e ↦
      let gone : get id m ≡ none = rw ((str_eq_iff j id).0 e) at h.0 in
      rw e (omega (arith, total-delete-none id m gone))
  | inr e ↦ rw e (omega (arith, total-delete id m h.1))
]

pub held-le-total : (id : Str) (m : Map ℕ) → held id m ≤ total m
unfolding get
held-le-total id [] = omega arith
held-le-total id ((j, w) ∷ m) = ground (arith, held-le-total id m)
