-- ===== src/Text/Search.antt =====
-- `std::string::find` of a byte.
use me56ps2_emulator.Prelude.{
  zero, ap, drop, take, ℕ, suc, ◌≡◌, ◌≢◌, refl, Option, none, some, List, [], ◌∷◌, ◌++◌, arith,
  ◌==◌, if◌then◌else◌, length,
}

-- `s.find(c)`, with `none` for `npos`
unfoldable pub find : ℕ → List ℕ → Option ℕ
find c [] = none
find c (x ∷ xs) =
    if x == c then some 0 else elim (find c xs) [ none ↦ none | some i ↦ some (suc i) ]

-- every byte differs from `c`
abbrev pub Free : ℕ → List ℕ → Type 0
Free c [] = Unit {0}
Free c (x ∷ xs) = (x ≢ c) × Free c xs

pub Free-append : (c : ℕ) (s t : List ℕ) → Free c s → Free c t → Free c (s ++ t)
Free-append c [] t h k = k
Free-append c (x ∷ s) t h k = (h.0, Free-append c s t h.1 k)

pub find-Free : (c : ℕ) (s : List ℕ) → Free c s → find c s ≡ none
unfolding find
find-Free c [] h = refl
find-Free c (x ∷ s) h = ground (arith, find-Free c s)

pub find-append : (c : ℕ) (s t : List ℕ) → Free c s → find c (s ++ c ∷ t) ≡ some (length s)
unfolding find
find-append c [] t h = ground arith
find-append c (x ∷ s) t h = ground (arith, find-append c s t)

pub find_sound :
    (c : ℕ) (s : List ℕ) (i : ℕ) → find c s ≡ some i → s ≡ take i s ++ c ∷ drop (suc i) s
unfolding find
find_sound c [] i h = cc
find_sound c (x ∷ s) zero h = ground arith
find_sound c (x ∷ s) (suc i) h = let ih = find_sound c s i (ground arith) in ap (◌∷◌ x) ih
