-- ===== src/Downloader/Assembly.antt =====
-- The file that `downloadChunks` of internal/downloader/range_downloader.go leaves, when its workers
-- finish the chunks in any order. Each chunk is written in its own place, so the order in which
-- workers are done with them is the order of the writes.
use type_type_downloader.Prelude.{
  List, [], ap, arith, drop, get_elem?, inl, inr, length, refl, suc, sym, take, zero, ℕ, ◌+◌, ◌<◌,
  ◌∷◌, ◌≡◌, ◌≤◌, ◌⊎◌,
}
use type_type_downloader.Downloader.Copying.{overwrite, splice, write_at}

-- The file and the content agree at `i`.
abbrev pub Agree : ℕ → List ℕ → List ℕ → Type 0
Agree i content file = get_elem? file i ≡ get_elem? content i

abbrev pub slice : ℕ → ℕ → List ℕ → List ℕ
slice start n content = take n (drop start content)

abbrev pub Covers : ℕ → ℕ → ℕ → Type 0
Covers start n i = (start ≤ i) × (i < start + n)

overwrite-Agree :
    (n i : ℕ) (content file : List ℕ)
    → length file ≡ length content
    → (Agree i content file ⊎ (i < n))
    → Agree i content (overwrite (take n content) file)
unfolding overwrite
overwrite-Agree zero i content file size (inl a) = a
overwrite-Agree zero i content file size (inr less) = absurd (omega arith)
overwrite-Agree (suc n) i [] [] size a = refl
overwrite-Agree (suc n) i [] (y ∷ file) size a = absurd (omega arith)
overwrite-Agree (suc n) i (x ∷ content) [] size a = absurd (omega arith)
overwrite-Agree (suc n) zero (x ∷ content) (y ∷ file) size a = refl
overwrite-Agree (suc n) (suc i) (x ∷ content) (y ∷ file) size (inl a) =
    overwrite-Agree n i content file (omega arith) (inl a)
overwrite-Agree (suc n) (suc i) (x ∷ content) (y ∷ file) size (inr less) =
    overwrite-Agree n i content file (omega arith) (inr (omega arith))

length-overwrite :
    (n : ℕ) (content file : List ℕ)
    → length file ≡ length content
    → length (overwrite (take n content) file) ≡ length content
unfolding overwrite
length-overwrite zero content file size = size
length-overwrite (suc n) [] [] size = refl
length-overwrite (suc n) [] (y ∷ file) size = absurd (omega arith)
length-overwrite (suc n) (x ∷ content) [] size = absurd (omega arith)
length-overwrite (suc n) (x ∷ content) (y ∷ file) size =
    ap suc (length-overwrite n content file (omega arith))

pub splice-Agree :
    (start n i : ℕ) (content file : List ℕ)
    → length file ≡ length content
    → start ≤ length content
    → (Agree i content file ⊎ Covers start n i)
    → Agree i content (splice start (slice start n content) file)
unfolding splice
splice-Agree zero n i content file size le (inl a) = overwrite-Agree n i content file size (inl a)
splice-Agree zero n i content file size le (inr (from, to)) =
    overwrite-Agree n i content file size (inr (omega arith))
splice-Agree (suc start) n i [] file size le a = absurd (omega arith)
splice-Agree (suc start) n i (x ∷ content) [] size le a = absurd (omega arith)
splice-Agree (suc start) n zero (x ∷ content) (y ∷ file) size le (inl a) = a
splice-Agree (suc start) n zero (x ∷ content) (y ∷ file) size le (inr (from, to)) =
    absurd (omega arith)
splice-Agree (suc start) n (suc i) (x ∷ content) (y ∷ file) size le (inl a) =
    splice-Agree start n i content file (omega arith) (omega arith) (inl a)
splice-Agree (suc start) n (suc i) (x ∷ content) (y ∷ file) size le (inr (from, to)) =
    splice-Agree start n i content file (omega arith) (omega arith) (inr (omega arith, omega arith))

pub length-splice :
    (start n : ℕ) (content file : List ℕ)
    → length file ≡ length content
    → start ≤ length content
    → length (splice start (slice start n content) file) ≡ length content
unfolding splice
length-splice zero n content file size le = length-overwrite n content file size
length-splice (suc start) n [] file size le = absurd (omega arith)
length-splice (suc start) n (x ∷ content) [] size le = absurd (omega arith)
length-splice (suc start) n (x ∷ content) (y ∷ file) size le =
    ap suc (length-splice start n content file (omega arith) (omega arith))

splice_nothing : (p : ℕ) (file : List ℕ) → p ≤ length file → splice p [] file ≡ file
unfolding splice overwrite
splice_nothing zero file le = refl
splice_nothing (suc p) [] le = absurd (omega arith)
splice_nothing (suc p) (x ∷ file) le = ap (◌∷◌ x) (splice_nothing p file (omega arith))

pub write_at-splice :
    (p : ℕ) (d file : List ℕ) → p ≤ length file → write_at p d file ≡ splice p d file
unfolding write_at
write_at-splice p [] file le = sym (splice_nothing p file le)
write_at-splice p (x ∷ d) file le = refl

pub same_elements :
    (content file : List ℕ)
    → length file ≡ length content
    → ((i : ℕ) → i < length content → Agree i content file)
    → file ≡ content
same_elements [] [] size agree = refl
same_elements [] (y ∷ file) size agree = absurd (omega arith)
same_elements (x ∷ content) [] size agree = absurd (omega arith)
same_elements (x ∷ content) (y ∷ file) size agree =
    let head : y ≡ x = cc (agree 0 (omega arith)) in
    let rest = same_elements content file (omega arith) (λ i less. agree (suc i) (omega arith)) in
    rw (head, rest) refl
