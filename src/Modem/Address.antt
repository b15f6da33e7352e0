-- ===== src/Modem/Address.antt =====
-- src/modem.cpp, `Modem::parse_address`: the dialled number "000-000-000-000#00000" as an IPv4
-- address and a port.
use me56ps2_emulator.Prelude.{
  ℕ, zero, suc, ◌+◌, ◌-◌, ◌*◌, ◌/◌, ◌%◌, ◌^◌, ◌≤◌, ◌<◌, ◌≡◌, refl, ap, ap₂, ◌∙◌, sym, Bool, true,
  false, not, ◌&&◌, ◌||◌, Option, none, some, List, [], ◌∷◌, ◌++◌, append_assoc, arith, ◌==◌, ltb,
  leb, if◌then◌else◌, length, Bool-cases, inl, inr, dec_lt,
}
use me56ps2_emulator.Text.{Text}
use me56ps2_emulator.Text.Search.{find}
use me56ps2_emulator.Text.Scan.{Directive, uint, literal, sscanf}
use me56ps2_emulator.Text.Decimal.{decimal}
pub mod Laws

-- What the C library of the host decides: the largest `unsigned long`, and `inet_addr`.
pub record Libc : Type 0 where
  pub ulong_max : ℕ
  pub inet_addr : Text → ℕ

-- `struct sockaddr_in`, the port and the address in network order
pub record SockAddr : Type 0 where
  pub sin_family : ℕ
  pub sin_port : ℕ
  pub sin_addr : ℕ

abbrev pub tcp_default_port : ℕ
tcp_default_port = 10023

abbrev pub af_inet : ℕ
af_inet = 2

-- on a little-endian host
abbrev pub htons : ℕ → ℕ
htons p = p % 256 * 256 + p / 256 % 256

-- "%d.%d.%d.%d" with `.` for `sep`
unfoldable pub quad : ℕ → ℕ → ℕ → ℕ → ℕ → Text
quad sep a b c d = decimal a ++ sep ∷ (decimal b ++ sep ∷ (decimal c ++ sep ∷ decimal d))

abbrev pub quad_format : List Directive → List Directive
quad_format rest = uint ∷ literal b'-' ∷ uint ∷ literal b'-' ∷ uint ∷ literal b'-' ∷ uint ∷ rest

-- The range checks read the 32 bits that `%u` stored as an `int`.
abbrev pub is_negative : ℕ → Bool
is_negative v = leb (2 ^ 31) v

abbrev pub bad_octet : ℕ → Bool
bad_octet v = is_negative v || ltb 255 v

abbrev pub bad_port : ℕ → Bool
bad_port v = is_negative v || ltb v 1 || ltb 65535 v

module _ (libc : Libc) where
  abbrev pub sock_addr : ℕ → ℕ → ℕ → ℕ → ℕ → SockAddr
  sock_addr a b c d port = record {
    sin_family = af_inet;
    sin_port = htons port;
    sin_addr = libc.inet_addr (quad b'.' a b c d);
  }

  pub check_ranges : ℕ → ℕ → ℕ → ℕ → ℕ → Option SockAddr
  check_ranges a b c d port =
      if bad_octet a || bad_octet b || bad_octet c || bad_octet d
      then none
      else if bad_port port
      then none
      else some (sock_addr a b c d port)

  -- `ret != 5`
  pub with_port : List ℕ → Option SockAddr
  unfolding check_ranges
  with_port (a ∷ b ∷ c ∷ d ∷ port ∷ []) = check_ranges a b c d port
  with_port _ = none

  -- `ret != 4`
  pub without_port : List ℕ → Option SockAddr
  unfolding check_ranges
  without_port (a ∷ b ∷ c ∷ d ∷ []) = check_ranges a b c d tcp_default_port
  without_port _ = none

  unfoldable pub parse_address : Text → Option SockAddr
  unfolding with_port without_port
  parse_address addr = elim (find b'#' addr) [
    | some _ ↦ with_port (sscanf libc.ulong_max (quad_format (literal b'#' ∷ uint ∷ [])) addr)
    | none ↦ without_port (sscanf libc.ulong_max (quad_format []) addr)
  ]
