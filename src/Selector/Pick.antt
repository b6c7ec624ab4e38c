-- ===== src/Selector/Pick.antt =====
-- What the selection loop of internal/selector/selector.go finds, for any test and any order.
use type_type_downloader.Prelude.{
  Bool, Bool-cases, List, Option, [], append-nil, append_assoc, arith, false, inl, inr, none, refl,
  some, true, ◌&&◌, ◌++◌, ◌∷◌, ◌≡◌,
}
use type_type_downloader.Selector.{consider, pick}

-- `a` replaces `b` is a strict order in which two streams that do not replace one another are tied.
pub record IsStrictOrder {A : Type 0} (better : A → A → Bool) : Type 0 where
  pub asym : (a b : A) → better a b ≡ true → better b a ≡ false
  pub step : (a b c : A) → better a b ≡ true → better c b ≡ false → better a c ≡ true

abbrev pub All : {A : Type 0} → (A → Type 0) → List A → Type 0
All P [] = Unit
All P (x ∷ xs) = P x × All P xs

module _ {A : Type 0} (eligible : A → Bool) (better : A → A → Bool) where
  -- The first of the best: what stands before it and passes the tests is strictly worse, what
  -- stands behind it is not better.
  abbrev pub Best : List A → Option A → Type 0
  Best streams none = All (λ x. eligible x ≡ false) streams
  Best streams (some best) =
      (before : List A) × (behind : List A) × (streams ≡ before ++ best ∷ behind)
      × (eligible best ≡ true)
      × All (λ x. eligible x ≡ true → better best x ≡ true) before
      × All (λ x. eligible x ≡ true → better x best ≡ false) behind

module _ {A : Type 0} {P Q : A → Type 0} (f : (a : A) → P a → Q a) where
  pub All-map : (xs : List A) → All P xs → All Q xs
  All-map [] h = tt
  All-map (x ∷ xs) h = (f x h.0, All-map xs h.1)

module _ {A : Type 0} (P : A → Type 0) where
  pub All-append : (xs ys : List A) → All P xs → All P ys → All P (xs ++ ys)
  All-append [] ys h k = k
  All-append (x ∷ xs) ys h k = (h.0, All-append xs ys h.1 k)

module _ {A : Type 0} (eligible : A → Bool) (better : A → A → Bool) (o : IsStrictOrder better) where
  consider-Best :
      (seen : List A) (x : A) (best : Option A)
      → Best eligible better seen best
      → Best eligible better (seen ++ x ∷ []) (consider eligible better x best)
  unfolding consider
  consider-Best seen x none h = elim (Bool-cases (eligible x)) [
    | inl e ↦ rw e (seen, [], refl, e, All-map (λ a n y. absurd (cc n)) seen h, tt)
    | inr n ↦ rw n (All-append (λ a. eligible a ≡ false) seen (x ∷ []) h (n, tt))
  ]
  consider-Best seen x (some best) (before, behind, split, good, worse, tied) =
      elim (Bool-cases (eligible x && better x best)) [
        | inl e ↦
            let taken = both (eligible x) (better x best) e in
            rw e (
              seen,
              [],
              refl,
              taken.0,
              rw split (
                  All-append (λ a. eligible a ≡ true → better x a ≡ true) before (best ∷ behind)
                    (All-map (λ a w n. beats a taken.1 (w n)) before worse)
                    (λ _. taken.1, All-map (λ a t n. o.step x best a taken.1 (t n)) behind tied)),
              tt,
            )
        | inr n ↦ rw n (
          before,
          behind ++ x ∷ [],
          rw split (append_assoc before (best ∷ behind) (x ∷ [])),
          good,
          worse,
          All-append (λ a. eligible a ≡ true → better a best ≡ false) behind (x ∷ []) tied
              (λ y. kept (eligible x) (better x best) n y, tt),
        )
      ]
    where
      both : (a b : Bool) → (a && b) ≡ true → (a ≡ true) × (b ≡ true)
      both a b h = ground arith

      kept : (a b : Bool) → (a && b) ≡ false → a ≡ true → b ≡ false
      kept a b h y = ground arith

      beats : (a : A) → better x best ≡ true → better best a ≡ true → better x a ≡ true
      beats a h k = o.step x best a h (o.asym best a k)

  pub pick-Best :
      (seen streams : List A) (best : Option A)
      → Best eligible better seen best
      → Best eligible better (seen ++ streams) (pick eligible better streams best)
  unfolding pick
  pick-Best seen [] best h = rw append-nil h
  pick-Best seen (x ∷ xs) best h = rw (append_assoc seen (x ∷ []) xs) at (
      pick-Best (seen ++ x ∷ []) xs (consider eligible better x best) (consider-Best seen x best h))
