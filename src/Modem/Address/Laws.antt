-- ===== src/Modem/Address/Laws.antt =====
-- What `Modem::parse_address` (src/modem.cpp) accepts, and what it makes of it.
use me56ps2_emulator.Prelude.{
  ◌≢◌, ℕ, ◌+◌, ◌*◌, ◌≤◌, ◌<◌, ◌≡◌, refl, ap, ◌∙◌, false, some, Option-cases, inl, inr, ◌⊎◌, List,
  [], ◌∷◌, ◌++◌, append_assoc, append-nil, arith, ==_refl,
}
use me56ps2_emulator.Text.{Text}
use me56ps2_emulator.Text.Search.{find, Free, Free-append, find-append, find-Free}
use me56ps2_emulator.Text.Scan.{Directive, uint, literal, sscanf, is_digit}
use me56ps2_emulator.Text.Decimal.{decimal, decimal-Free, scan_uint-decimal, NoDigit}
use me56ps2_emulator.Modem.Address.{
  none, Libc, SockAddr, sock_addr, quad, quad_format, check_ranges, with_port, without_port,
  parse_address, htons, af_inet, tcp_default_port,
}

-- `inet_addr` as POSIX documents it for four decimal numbers below 256, on a little-endian host.
abbrev pub ReadsQuads : Libc → Type 0
ReadsQuads libc =
    (a b c d : ℕ)
    → a < 256
    → b < 256
    → c < 256
    → d < 256
    → libc.inet_addr (quad b'.' a b c d) ≡ a + 256 * (b + 256 * (c + 256 * d))

pub quad-append :
    (sep a b c d : ℕ) (rest : Text)
    → quad sep a b c d ++ rest
      ≡ decimal a ++ sep ∷ (decimal b ++ sep ∷ (decimal c ++ sep ∷ (decimal d ++ rest)))
unfolding quad
quad-append sep a b c d rest = simp append_assoc

quad-Free : (sep c₀ a b c d : ℕ) → is_digit c₀ ≡ false → (sep ≡ c₀ → ⊥) → Free c₀ (quad sep a b c d)
unfolding quad
quad-Free sep c₀ a b c d h ne = Free-append c₀ (decimal a) _ (decimal-Free c₀ h a) (
  ne,
  Free-append c₀ (decimal b) _ (decimal-Free c₀ h b)
      (ne, Free-append c₀ (decimal c) _ (decimal-Free c₀ h c) (ne, decimal-Free c₀ h d)),
)

module _ (libc : Libc) (word : 65535 ≤ libc.ulong_max) where
  pub sscanf_uint :
      (n : ℕ) (fmt : List Directive) (rest : Text)
      → n ≤ 65535
      → NoDigit rest
      → sscanf libc.ulong_max (uint ∷ fmt) (decimal n ++ rest) ≡ n ∷ sscanf libc.ulong_max fmt rest
  unfolding sscanf
  sscanf_uint n fmt rest h stop =
      rw (scan_uint-decimal libc.ulong_max n rest (omega arith) (omega arith) stop, sscanf)

  pub sscanf_sep :
      (n sep : ℕ) (fmt : List Directive) (rest : Text)
      → n ≤ 65535
      → is_digit sep ≡ false
      → sscanf libc.ulong_max (uint ∷ literal sep ∷ fmt) (decimal n ++ sep ∷ rest)
        ≡ n ∷ sscanf libc.ulong_max fmt rest
  unfolding sscanf
  sscanf_sep n sep fmt rest h stop =
      sscanf_uint n (literal sep ∷ fmt) (sep ∷ rest) h stop ∙ ap (◌∷◌ n) (rw (==_refl sep))

  sscanf-quad :
      (a b c d : ℕ) (fmt : List Directive) (rest : Text)
      → a < 256
      → b < 256
      → c < 256
      → d < 256
      → NoDigit rest
      → sscanf libc.ulong_max (quad_format fmt) (quad b'-' a b c d ++ rest)
        ≡ a ∷ b ∷ c ∷ d ∷ sscanf libc.ulong_max fmt rest
  unfolding is_digit
  sscanf-quad a b c d fmt rest ha hb hc hd stop = rw (
    quad-append b'-' a b c d rest,
    sscanf_sep a b'-' _ _ (omega arith) refl,
    sscanf_sep b b'-' _ _ (omega arith) refl,
    sscanf_sep c b'-' _ _ (omega arith) refl,
    sscanf_uint d fmt rest (omega arith) stop,
  )

  module _ (inet : ReadsQuads libc) (a b c d : ℕ) (ha : a < 256) (hb : b < 256) (hc : c < 256)
      (hd : d < 256) where
    abbrev dialled : ℕ → SockAddr
    dialled port = record {
      sin_family = af_inet;
      sin_port = htons port;
      sin_addr = a + 256 * (b + 256 * (c + 256 * d));
    }

    check_ranges_lem :
        (port : ℕ) → 1 ≤ port → port ≤ 65535 → check_ranges libc a b c d port ≡ some (dialled port)
    unfolding check_ranges
    check_ranges_lem port lo hi = ground (arith, inet a b c d)

    no_hash : is_digit b'#' ≡ false
    unfolding is_digit
    no_hash = refl

    sscanf_last :
        (port : ℕ)
        → port ≤ 65535
        → sscanf libc.ulong_max (literal b'#' ∷ uint ∷ []) (b'#' ∷ decimal port) ≡ port ∷ []
    unfolding sscanf
    sscanf_last port hi = rw (← append-nil (decimal port)) (sscanf_uint port [] [] hi tt)

    sscanf_all : sscanf libc.ulong_max (quad_format []) (quad b'-' a b c d) ≡ a ∷ b ∷ c ∷ d ∷ []
    unfolding sscanf
    sscanf_all = rw (← append-nil (quad b'-' a b c d)) (sscanf-quad a b c d [] [] ha hb hc hd tt)

    -- A number with a port, as the format says, is read as that address and that port.
    pub parse_address_port :
        (port : ℕ)
        → 1 ≤ port
        → port ≤ 65535
        → parse_address libc (quad b'-' a b c d ++ b'#' ∷ decimal port) ≡ some (dialled port)
    unfolding parse_address with_port
    parse_address_port port lo hi =
        rw
          (
            find-append b'#' (quad b'-' a b c d) (decimal port)
                (quad-Free b'-' b'#' a b c d no_hash (λ e. cc)),
            parse_address,
            sscanf-quad a b c d _ (b'#' ∷ decimal port) ha hb hc hd no_hash,
            sscanf_last port hi,
            with_port,
          )
          (check_ranges_lem port lo hi)

    -- A number with no port is read as that address and the default port.
    pub parse_address_default :
        parse_address libc (quad b'-' a b c d) ≡ some (dialled tcp_default_port)
    unfolding parse_address without_port
    parse_address_default =
        rw
          (
            find-Free b'#' (quad b'-' a b c d) (quad-Free b'-' b'#' a b c d no_hash (λ e. cc)),
            parse_address,
            sscanf_all,
            without_port,
          )
          (check_ranges_lem tcp_default_port (omega arith) (omega arith))

-- Five numbers in range, which make up the socket address.
record Dialled (libc : Libc) (a b c d port : ℕ) (sa : SockAddr) : Type 0 where
  octets : (a ≤ 255) × (b ≤ 255) × (c ≤ 255) × (d ≤ 255)
  low : 1 ≤ port
  high : port ≤ 65535
  built : sa ≡ sock_addr libc a b c d port

module _ (libc : Libc) where
  check_ranges_sound :
      (a b c d port : ℕ) (sa : SockAddr)
      → check_ranges libc a b c d port ≡ some sa
      → Dialled libc a b c d port sa
  unfolding check_ranges
  check_ranges_sound a b c d port sa h = ground arith

  with_port_sound :
      (vs : List ℕ) (sa : SockAddr)
      → with_port libc vs ≡ some sa
      → (a b c d port : ℕ) × (vs ≡ a ∷ b ∷ c ∷ d ∷ port ∷ []) × Dialled libc a b c d port sa
  unfolding with_port
  with_port_sound (a ∷ b ∷ c ∷ d ∷ port ∷ []) sa h =
      (a, b, c, d, port, refl, check_ranges_sound a b c d port sa h)
  with_port_sound _ sa h = cc

  without_port_sound :
      (vs : List ℕ) (sa : SockAddr)
      → without_port libc vs ≡ some sa
      → (a b c d : ℕ) × (vs ≡ a ∷ b ∷ c ∷ d ∷ []) × Dialled libc a b c d tcp_default_port sa
  unfolding without_port
  without_port_sound (a ∷ b ∷ c ∷ d ∷ []) sa h =
      (a, b, c, d, refl, check_ranges_sound a b c d tcp_default_port sa h)
  without_port_sound _ sa h = cc

  -- the numbers that `sscanf` finds in a dialled number: five where it holds a `#`, else four and
  -- the default port
  abbrev pub Numbers : Text → ℕ → ℕ → ℕ → ℕ → ℕ → Type 0
  Numbers addr a b c d port =
      ((find b'#' addr ≢ none)
        × (sscanf libc.ulong_max (quad_format (literal b'#' ∷ uint ∷ [])) addr
            ≡ a ∷ b ∷ c ∷ d ∷ port ∷ []))
      ⊎ ((find b'#' addr ≡ none)
          × (port ≡ tcp_default_port)
          × (sscanf libc.ulong_max (quad_format []) addr ≡ a ∷ b ∷ c ∷ d ∷ []))

  -- Whatever is accepted stands for numbers read from the text, each octet at most 255 and the port
  -- from 1 to 65535, and the socket address is made of exactly those.
  pub parse_address_sound :
      (addr : Text) (sa : SockAddr)
      → parse_address libc addr ≡ some sa
      → (a b c d port : ℕ) × Numbers addr a b c d port
        × (a ≤ 255)
        × (b ≤ 255)
        × (c ≤ 255)
        × (d ≤ 255)
        × (1 ≤ port)
        × (port ≤ 65535)
        × (sa ≡ sock_addr libc a b c d port)
  unfolding parse_address
  parse_address_sound addr sa h = elim (Option-cases (find b'#' addr)) [
    | inl e ↦
        let (a, b, c, d, v, q) = without_port_sound _ sa (rw (e, parse_address) at h) in
        (
          a,
          b,
          c,
          d,
          tcp_default_port,
          inr (e, refl, v),
          q.octets.0,
          q.octets.1,
          q.octets.2,
          q.octets.3,
          q.low,
          q.high,
          q.built,
        )
    | inr (i, e) ↦
        let (a, b, c, d, port, v, q) = with_port_sound _ sa (rw (e, parse_address) at h) in
        (
          a,
          b,
          c,
          d,
          port,
          inl (λ n. cc, v),
          q.octets.0,
          q.octets.1,
          q.octets.2,
          q.octets.3,
          q.low,
          q.high,
          q.built,
        )
  ]
