-- ===== src/Prelude/Rising.antt =====
-- Reports that only rise: the newest comes first.
use type_type_downloader.Prelude.{List, [], arith, false, true, ◌∷◌, ◌≡◌}
use type_type_downloader.Prelude.Int.{ltb_ℤ, ℤ}

-- Strictly falling, and below the bound.
abbrev pub Below : ℤ → List ℤ → Type 0
Below bound [] = Unit
Below bound (r ∷ rest) = (ltb_ℤ r bound ≡ true) × Below r rest

abbrev pub Capped : ℤ → List ℤ → Type 0
Capped bound [] = Unit
Capped bound (r ∷ rest) = (ltb_ℤ bound r ≡ false) × Below r rest

pub Below-Capped :
    (b c : ℤ) (reports : List ℤ) → ltb_ℤ b c ≡ true → Capped b reports → Below c reports
Below-Capped b c [] h k = tt
Below-Capped b c (r ∷ rest) h (le, falls) = (ground arith, falls)

pub Capped-Below : (c : ℤ) (reports : List ℤ) → Below c reports → Capped c reports
Capped-Below c [] h = tt
Capped-Below c (r ∷ rest) (less, falls) = (ground arith, falls)

pub Capped-cons : (c : ℤ) (reports : List ℤ) → Below c reports → Capped c (c ∷ reports)
Capped-cons c reports h = (ground arith, h)
