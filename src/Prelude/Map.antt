-- ===== src/Prelude/Map.antt =====
-- Go's `map` with text keys, as an association list. Clients use `get`, `put` and `delete` through
-- the laws below.
use type_type_downloader.Prelude.{
  Bool-cases, List, Option, [], ap, arith, if◌then◌else◌, inl, inr, none, refl, some, ◌∷◌, ◌≡◌,
}
use type_type_downloader.Prelude.Text.{Str, str_eq, str_eq-false_comm, str_eq_iff, str_eq_refl}

abbrev pub Map {ℓ} : Type ℓ → Type ℓ
Map V = List (Str × V)

module _ {ℓ} {V : Type ℓ} where
  unfoldable pub get : Str → Map V → Option V
  get k [] = none
  get k ((j, v) ∷ m) = if str_eq j k then some v else get k m

  unfoldable pub put : Str → V → Map V → Map V
  put k v [] = (k, v) ∷ []
  put k v ((j, w) ∷ m) = if str_eq j k then (k, v) ∷ m else (j, w) ∷ put k v m

  unfoldable pub delete : Str → Map V → Map V
  delete k [] = []
  delete k ((j, v) ∷ m) = let rest = delete k m in if str_eq j k then rest else (j, v) ∷ rest

  pub get-put :
      (j k : Str) (v : V) (m : Map V) → get j (put k v m) ≡ (if str_eq k j then some v else get j m)
  unfolding get put
  get-put j k v [] = refl
  get-put j k v ((i, w) ∷ m) =
      ground (arith, str_eq_iff k j, str_eq_iff i k, str_eq_iff i j, get-put j k v m)

  pub get-delete :
      (j k : Str) (m : Map V) → get j (delete k m) ≡ (if str_eq k j then none else get j m)
  unfolding get delete
  get-delete j k [] = ground arith
  get-delete j k ((i, w) ∷ m) =
      ground (arith, str_eq_iff k j, str_eq_iff i k, str_eq_iff i j, get-delete j k m)

  -- A Go map holds a key once.
  abbrev pub IsMap : Map V → Type ℓ
  IsMap [] = Unit
  IsMap ((k, v) ∷ m) = (get k m ≡ none) × IsMap m

  pub put-IsMap : (k : Str) (v : V) (m : Map V) → IsMap m → IsMap (put k v m)
  unfolding put get
  put-IsMap k v [] h = (refl, tt)
  put-IsMap k v ((j, w) ∷ m) h = elim (Bool-cases (str_eq j k)) [
    | inl e ↦ rw e (rw (← (str_eq_iff j k).0 e) h)
    | inr e ↦ rw e (rw (get-put j k v m) (rw (str_eq-false_comm j k e) h.0), put-IsMap k v m h.1)
  ]

  pub get-delete-none : (j k : Str) (m : Map V) → get j m ≡ none → get j (delete k m) ≡ none
  get-delete-none j k m h = rw (get-delete j k m) (ground arith)

  pub delete-IsMap : (k : Str) (m : Map V) → IsMap m → IsMap (delete k m)
  unfolding delete
  delete-IsMap k [] h = tt
  delete-IsMap k ((j, w) ∷ m) h = elim (Bool-cases (str_eq j k)) [
    | inl e ↦ rw e (delete-IsMap k m h.1)
    | inr e ↦ rw e (get-delete-none j k m h.0, delete-IsMap k m h.1)
  ]

  -- To put a new key and to delete it again leaves the map as it was.
  pub delete-put : (k : Str) (v : V) (m : Map V) → get k m ≡ none → delete k (put k v m) ≡ m
  unfolding get put delete
  delete-put k v [] h = rw (str_eq_refl k) refl
  delete-put k v ((j, w) ∷ m) h = elim (Bool-cases (str_eq j k)) [
    | inl e ↦ absurd (ground (arith, e))
    | inr e ↦ rw (e, e) (ap (λ t. (j, w) ∷ t) (delete-put k v m (rw e at h)))
  ]
