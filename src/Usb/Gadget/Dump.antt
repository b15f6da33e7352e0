-- ===== src/Usb/Gadget/Dump.antt =====
-- The dump of a transfer (src/usb_raw_gadget.cpp) shows every byte: it can be read back.
use me56ps2_emulator.Prelude.{
  take-nil, false, ℕ, zero, suc, ◌+◌, ◌*◌, ◌/◌, ◌%◌, ◌≤◌, ◌<◌, ◌≡◌, refl, ap, ap₂, ◌∙◌, [], ◌∷◌,
  ◌++◌, append_assoc, ◌==◌, arith, if◌then◌else◌, length, take, drop, take-append-drop, length-drop,
}
use me56ps2_emulator.Text.{Text, bytes}
use me56ps2_emulator.Text.Search.{Free}
use me56ps2_emulator.Text.Hex.{
  hex, hex_byte, hex-Free, hex_digit, unhex_digit, unhex_digit-hex_digit,
}
use me56ps2_emulator.Usb.Gadget.{
  hex_columns, ascii_columns, dump_row, dump_from, dump_hex_and_ascii,
}

-- A reader of dumps: what is behind the first `c`, the numbers of a row, and all rows.
unfoldable pub after : ℕ → Text → Text
after c [] = []
after c (x ∷ s) = let rest = after c s in if x == c then s else rest

unfoldable pub read_columns : ℕ → Text → Text × Text
read_columns zero s = ([], s)
read_columns (suc p) (a ∷ b ∷ space ∷ s) =
    let (row, rest) = read_columns p s in
    (if a == b' ' then row else (unhex_digit a * 16 + unhex_digit b) ∷ row, rest)
read_columns (suc p) s = ([], s)

unfoldable pub undump : ℕ → Text → Text
undump zero s = []
undump (suc fuel) [] = []
undump (suc fuel) (c ∷ s) =
    let (row, rest) = read_columns 16 (drop 1 (after b':' (c ∷ s))) in
    row ++ undump fuel (after b'\n' rest)

abbrev pub AllBytes : Text → Type 0
AllBytes [] = Unit {0}
AllBytes (c ∷ s) = (c < 256) × AllBytes s

after-append : (c : ℕ) (p s : Text) → Free c p → after c (p ++ c ∷ s) ≡ s
unfolding after
after-append c [] s h = ground arith
after-append c (x ∷ p) s h = ground (arith, after-append c p s h.1)

ascii_columns-Free : (row : Text) → Free b'\n' (ascii_columns row)
unfolding ascii_columns
ascii_columns-Free [] = tt
ascii_columns-Free (c ∷ row) = ((λ e. absurd (ground arith)), ascii_columns-Free row)

-- a byte written with two digits
read_byte :
    (p c : ℕ) (s : Text)
    → c < 256
    → read_columns (suc p) (hex 2 c ++ b' ' ∷ s) ≡ (c ∷ (read_columns p s).0, (read_columns p s).1)
unfolding read_columns
read_byte p c s h =
    let high = unhex_digit-hex_digit (c / 16) (omega arith) in
    let low = unhex_digit-hex_digit (c % 16) (omega arith) in
    let shown : hex_digit (c / 16) == b' ' ≡ false = ground arith in
    let value : c / 16 * 16 + c % 16 ≡ c = omega arith in
    rw (hex_byte c h, read_columns, shown, high, low, value) refl

read_blank : (p : ℕ) (s : Text) → read_columns (suc p) (bytes "   " ++ s) ≡ read_columns p s
unfolding read_columns bytes
read_blank p s = refl

read_columns-hex_columns :
    (p : ℕ) (row s : Text)
    → AllBytes row
    → read_columns p (hex_columns p row ++ s) ≡ (take p row, s)
unfolding read_columns hex_columns bytes
read_columns-hex_columns zero row s h = refl
read_columns-hex_columns (suc p) [] s h =
    read_blank p _ ∙ read_columns-hex_columns p [] s h ∙ ap (λ r. (r, s)) (take-nil ℕ p)
read_columns-hex_columns (suc p) (c ∷ row) s h =
    let ih = read_columns-hex_columns p row s h.1 in
    ap (read_columns (suc p)) (append_assoc (hex 2 c) (b' ' ∷ hex_columns p row) s)
    ∙ read_byte p c (hex_columns p row ++ s) h.0
    ∙ ap (λ r. (c ∷ r.0, r.1)) ih

AllBytes-take : (n : ℕ) (s : Text) → AllBytes s → AllBytes (take n s) × AllBytes (drop n s)
AllBytes-take zero s h = (tt, h)
AllBytes-take (suc n) [] h = (tt, tt)
AllBytes-take (suc n) (c ∷ s) h = let (t, d) = AllBytes-take n s h.1 in ((h.0, t), d)

-- the row behind its offset
behind_offset :
    (offset : ℕ) (row more : Text)
    → after b':' (dump_row offset row ++ more)
      ≡ b' ' ∷ (hex_columns 16 row ++ (ascii_columns row ++ b'\n' ∷ more))
unfolding dump_row bytes
behind_offset offset row more =
    let ascii = ascii_columns row in
    let shown = hex_columns 16 row in
    ap (λ l. after b':' (b' ' ∷ b' ' ∷ l))
      (append_assoc (hex 4 offset) (b':' ∷ b' ' ∷ (shown ++ (ascii ++ b'\n' ∷ []))) more)
    ∙ after-append b':' (b' ' ∷ b' ' ∷ hex 4 offset) _
        ((λ e. absurd (omega (arith, e))), ((λ e. absurd (omega (arith, e))), hex-Free 4 offset))
    ∙ ap (◌∷◌ b' ') (
        append_assoc shown (ascii ++ b'\n' ∷ []) more
        ∙ ap (◌++◌ shown) (append_assoc ascii (b'\n' ∷ []) more))

undump_row :
    (fuel offset : ℕ) (row more : Text)
    → AllBytes row
    → undump (suc fuel) (dump_row offset row ++ more) ≡ take 16 row ++ undump fuel more
unfolding undump dump_row bytes
undump_row fuel offset row more h =
    let ascii = ascii_columns row in
    ap
      (λ t.
        let (shown, rest) = read_columns 16 (drop 1 t) in shown ++ undump fuel (after b'\n' rest))
      (behind_offset offset row more)
    ∙ ap (λ q. q.0 ++ undump fuel (after b'\n' q.1))
        (read_columns-hex_columns 16 row (ascii ++ b'\n' ∷ more) h)
    ∙ ap (λ m. take 16 row ++ undump fuel m)
        (after-append b'\n' ascii more (ascii_columns-Free row))

take_twice : (n : ℕ) (s : Text) → take n (take n s) ≡ take n s
take_twice zero s = refl
take_twice (suc n) [] = refl
take_twice (suc n) (c ∷ s) = ap (◌∷◌ c) (take_twice n s)

undump-dump_from :
    (fuel offset : ℕ) (data_ : Text)
    → length data_ ≤ fuel
    → AllBytes data_
    → undump fuel (dump_from fuel offset data_) ≡ data_
unfolding undump dump_from
undump-dump_from zero offset [] h a = refl
undump-dump_from zero offset (c ∷ data_) h a = absurd (omega arith)
undump-dump_from (suc fuel) offset [] h a = refl
undump-dump_from (suc fuel) offset (c ∷ data_) h a =
    let (row, rest) = AllBytes-take 16 (c ∷ data_) a in
    let few : length (drop 16 (c ∷ data_)) ≤ fuel = omega (arith, h, length-drop 16 (c ∷ data_)) in
    undump_row fuel offset (take 16 (c ∷ data_)) _ row
    ∙ ap₂ ◌++◌ (take_twice 16 (c ∷ data_))
        (undump-dump_from fuel (offset + 16) (drop 16 (c ∷ data_)) few rest)
    ∙ take-append-drop 16 (c ∷ data_)

-- What is printed of a transfer can be read back, whatever its bytes are and however many.
pub undump-dump_hex_and_ascii :
    (data_ : Text) → AllBytes data_ → undump (length data_) (dump_hex_and_ascii data_) ≡ data_
unfolding dump_hex_and_ascii
undump-dump_hex_and_ascii data_ a = undump-dump_from (length data_) 0 data_ (omega arith) a
