-- ===== src/Modem/Number/Laws.antt =====
-- Which dialled numbers `isPPPNumber` (src/modem.cpp) takes for the provider's.
use me56ps2_emulator.Prelude.{
  ◌≢◌, ℕ, suc, ◌≡◌, refl, ap, ◌∙◌, sym, true, [], ◌∷◌, ◌++◌, append_assoc, append-nil, arith, ◌==◌,
  drop, ◌⊎◌, inl, inr, ◌↔◌, Bool-cases, Option-cases,
}
use me56ps2_emulator.Text.{Text, bytes, eq_text_iff, pop_back, back, back_sound}
use me56ps2_emulator.Text.Search.{find, find_sound, find-append}
use me56ps2_emulator.Modem.Number.{
  any_equal, strip_prefix, strip_dash, strip_extension, is_ppp_number,
}

-- nothing, or the letter of pulse or tone dialling
abbrev pub DialPrefix : Text → Type 0
DialPrefix p = (p ≡ []) ⊎ (p ≡ b'T' ∷ []) ⊎ (p ≡ b'P' ∷ [])

abbrev pub Provider : Text → Type 0
Provider base = (base ≡ bytes "100") ⊎ (base ≡ bytes "168")

-- nothing, a dash, or an extension behind a comma
abbrev pub Suffix : Text → Type 0
Suffix e = (e ≡ []) ⊎ (e ≡ b'-' ∷ []) ⊎ ((rest : Text) × (e ≡ b',' ∷ rest))

any_equal_sound : (a b num : Text) → any_equal (a ∷ b ∷ []) num ≡ true → (num ≡ a) ⊎ (num ≡ b)
unfolding any_equal
any_equal_sound a b num h = ground (arith, eq_text_iff num a, eq_text_iff num b)

strip_prefix_sound : (s : Text) → (p : Text) × DialPrefix p × (s ≡ p ++ strip_prefix s)
unfolding strip_prefix
strip_prefix_sound [] = ([], inl refl, refl)
strip_prefix_sound (c ∷ s) = elim (Bool-cases (c == b'T')) [
  | inl e ↦ (b'T' ∷ [], inr (inl refl), ground arith)
  | inr ne ↦ elim (Bool-cases (c == b'P')) [
    | inl e ↦ (b'P' ∷ [], inr (inr refl), ground arith)
    | inr ne' ↦ ([], inl refl, ground arith)
  ]
]

strip_dash_sound : (s : Text) → (s ≡ strip_dash s) ⊎ (s ≡ strip_dash s ++ b'-' ∷ [])
unfolding strip_dash
strip_dash_sound s = elim (Option-cases (back s)) [
  | inl e ↦ inl (rw (e, strip_dash))
  | inr (c, e) ↦ elim (Bool-cases (c == b'-')) [
    | inl d ↦ inr (rw (e, strip_dash, d) (back_sound s b'-' (ground arith)))
    | inr d ↦ inl (rw (e, strip_dash, d))
  ]
]

strip_extension_sound :
    (s : Text) → (s ≡ strip_extension s) ⊎ ((rest : Text) × (s ≡ strip_extension s ++ b',' ∷ rest))
unfolding strip_extension
strip_extension_sound s = elim (Option-cases (find b',' s)) [
  | inl e ↦ inl (rw (e, strip_extension))
  | inr (i, e) ↦ inr (drop (suc i) s, rw (e, strip_extension) (find_sound b',' s i e))
]

-- The letter, the base and what follows it, taken apart.
parts :
    (p num base : Text)
    → DialPrefix p
    → Provider base
    → strip_extension (strip_dash num) ≡ base
    → (q b e : Text) × (p ++ num ≡ q ++ (b ++ e)) × DialPrefix q × Provider b × Suffix e
parts p num base hp hb h = elim (strip_dash_sound num) [
  | inl d ↦ elim (strip_extension_sound (strip_dash num)) [
    | inl x ↦ (p, base, [], ap (◌++◌ p) (d ∙ x ∙ h ∙ sym (append-nil base)), hp, hb, inl refl)
    | inr (rest, x) ↦ (
      p,
      base,
      b',' ∷ rest,
      ap (◌++◌ p) (d ∙ x ∙ ap (λ t. t ++ b',' ∷ rest) h),
      hp,
      hb,
      inr (inr (rest, refl)),
    )
  ]
  | inr d ↦ elim (strip_extension_sound (strip_dash num)) [
    | inl x ↦ (
      p,
      base,
      b'-' ∷ [],
      ap (◌++◌ p) (d ∙ ap (λ t. t ++ b'-' ∷ []) (x ∙ h)),
      hp,
      hb,
      inr (inl refl),
    )
    | inr (rest, x) ↦ (
      p,
      base,
      b',' ∷ (rest ++ b'-' ∷ []),
      ap (◌++◌ p) (
          d
          ∙ ap (λ t. t ++ b'-' ∷ []) (x ∙ ap (λ t. t ++ b',' ∷ rest) h)
          ∙ append_assoc base (b',' ∷ rest) (b'-' ∷ [])),
      hp,
      hb,
      inr (inr (rest ++ b'-' ∷ [], refl)),
    )
  ]
]

strip_dash_comma :
    (x y z : ℕ) (rest : Text)
    → (rest' : Text) × (strip_dash (x ∷ y ∷ z ∷ b',' ∷ rest) ≡ x ∷ y ∷ z ∷ b',' ∷ rest')
unfolding strip_dash back pop_back
strip_dash_comma x y z [] = ([], refl)
strip_dash_comma x y z (r ∷ rest) = elim (Option-cases (back (r ∷ rest))) [
  | inl e ↦ (r ∷ rest, rw (e, strip_dash))
  | inr (c, e) ↦ elim (Bool-cases (c == b'-')) [
    | inl d ↦ (pop_back (r ∷ rest), ground arith)
    | inr d ↦ (r ∷ rest, ground arith)
  ]
]

strip_extension_comma :
    (x y z : ℕ) (rest : Text)
    → x ≢ b','
    → y ≢ b','
    → z ≢ b','
    → strip_extension (x ∷ y ∷ z ∷ b',' ∷ rest) ≡ x ∷ y ∷ z ∷ []
unfolding strip_extension
strip_extension_comma x y z rest hx hy hz =
    rw (find-append b',' (x ∷ y ∷ z ∷ []) rest (hx, (hy, (hz, tt))), strip_extension)

-- A base of three digits survives, whatever suffix stands behind it.
strips :
    (x y z : ℕ) (e : Text)
    → x ≢ b','
    → y ≢ b','
    → z ≢ b','
    → z ≢ b'-'
    → Suffix e
    → strip_extension (strip_dash (x ∷ y ∷ z ∷ e)) ≡ x ∷ y ∷ z ∷ []
unfolding strip_extension strip_dash back pop_back find
strips x y z e hx hy hz hd (inl n) = rw n (ground arith)
strips x y z e hx hy hz hd (inr (inl n)) = rw n (ground arith)
strips x y z e hx hy hz hd (inr (inr (rest, n))) =
    let (rest', q) = strip_dash_comma x y z rest in
    rw n (ap strip_extension q ∙ strip_extension_comma x y z rest' hx hy hz)

bytes_100 : bytes "100" ≡ b'1' ∷ b'0' ∷ b'0' ∷ []
unfolding bytes
bytes_100 = refl

bytes_168 : bytes "168" ≡ b'1' ∷ b'6' ∷ b'8' ∷ []
unfolding bytes
bytes_168 = refl

strips_100 : (e : Text) → Suffix e → strip_extension (strip_dash (bytes "100" ++ e)) ≡ bytes "100"
strips_100 e he =
    rw bytes_100
      (strips b'1' b'0' b'0' e (omega arith) (omega arith) (omega arith) (omega arith) he)

strips_168 : (e : Text) → Suffix e → strip_extension (strip_dash (bytes "168" ++ e)) ≡ bytes "168"
strips_168 e he =
    rw bytes_168
      (strips b'1' b'6' b'8' e (omega arith) (omega arith) (omega arith) (omega arith) he)

Provider-strips : (b e : Text) → Provider b → Suffix e → strip_extension (strip_dash (b ++ e)) ≡ b
Provider-strips b e hb he = elim hb [
  | inl n ↦ rw n (strips_100 e he)
  | inr n ↦ rw n (strips_168 e he)
]

any_equal_complete : (a b num : Text) → (num ≡ a) ⊎ (num ≡ b) → any_equal (a ∷ b ∷ []) num ≡ true
unfolding any_equal
any_equal_complete a b num h = ground (arith, eq_text_iff num a, eq_text_iff num b)

strip_prefix-append :
    (q b e : Text) → DialPrefix q → Provider b → strip_prefix (q ++ (b ++ e)) ≡ b ++ e
unfolding strip_prefix
strip_prefix-append q b e (inl n) (inl m) = rw (n, m, bytes_100)
strip_prefix-append q b e (inl n) (inr m) = rw (n, m, bytes_168)
strip_prefix-append q b e (inr (inl n)) hb = rw n
strip_prefix-append q b e (inr (inr n)) hb = rw n

-- A dialled number is the provider's exactly if it is, behind the letter T or P or none, one of the
-- two bases, alone or followed by a single dash or by a comma and any extension.
pub is_ppp_number_iff :
    (s : Text)
    → (is_ppp_number s ≡ true)
      ↔ ((q b e : Text) × (s ≡ q ++ (b ++ e)) × DialPrefix q × Provider b × Suffix e)
unfolding is_ppp_number
is_ppp_number_iff s = (sound, complete)
  where
    sound :
        is_ppp_number s ≡ true
        → (q b e : Text) × (s ≡ q ++ (b ++ e)) × DialPrefix q × Provider b × Suffix e
    sound h =
        let (p, hp, e) = strip_prefix_sound s in
        let hit =
          any_equal_sound (bytes "100") (bytes "168")
            (strip_extension (strip_dash (strip_prefix s))) h in
        let (q, b, x, same, hq, hb, hx) = parts p (strip_prefix s) _ hp hit refl in
        (q, b, x, e ∙ same, hq, hb, hx)

    complete :
        ((q b e : Text) × (s ≡ q ++ (b ++ e)) × DialPrefix q × Provider b × Suffix e)
        → is_ppp_number s ≡ true
    complete (q, b, e, same, hq, hb, he) =
        rw (same, is_ppp_number, strip_prefix-append q b e hq hb, Provider-strips b e hb he)
          (any_equal_complete (bytes "100") (bytes "168") b hb)
