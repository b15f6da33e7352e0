-- ===== src/Tests/Modem.antt =====
-- The theorems on command lines and dialled numbers, at concrete ones.
use me56ps2_emulator.Prelude.{
  zero, ◌≡◌, ◌≢◌, refl, ℕ, ◌+◌, ◌*◌, ◌≤◌, ◌↔◌, ◌&&◌, true, false, some, [], ◌∷◌, ◌++◌, zero, suc,
  arith, leb, length, get_elem?, if◌then◌else◌,
}
use me56ps2_emulator.Text.{Text, bytes}
use me56ps2_emulator.Text.Decimal.{decimal}
use me56ps2_emulator.Os.{EndsIn, Outcome, ok, fault, Fault, ◌>>=◌, got, fail}
use me56ps2_emulator.PtyDev.{pty_dev}
use me56ps2_emulator.Context.{Context}
use me56ps2_emulator.Modem.Address.{
  quad, parse_address, SockAddr, sock_addr, tcp_default_port, htons, af_inet,
}
use me56ps2_emulator.Modem.Address.Laws.{
  Numbers, parse_address_port, parse_address_default, parse_address_sound,
}
use me56ps2_emulator.Modem.Number.{is_ppp_number}
use me56ps2_emulator.Modem.Number.Laws.{DialPrefix, Provider, Suffix, is_ppp_number_iff}
use me56ps2_emulator.Modem.At.{Model, process_at}
use me56ps2_emulator.Modem.At.Laws.{process_at_bare_dial}
use me56ps2_emulator.Modem.At.Replies.{Answered, process_at_lem}
use me56ps2_emulator.Modem.Line.{omron_payload, offline_loop}
use me56ps2_emulator.Modem.Line.Feed.{feed, offline_loop-feed}
use me56ps2_emulator.Modem.Line.Chunks.{read_lines, read_lines_chunks}
use me56ps2_emulator.Modem.Line.Payload.{packet, omron_payload-packet}
use me56ps2_emulator.Modem.BulkIn.{control_out}
use me56ps2_emulator.Modem.BulkIn.Status.{HangsUp, control_out_ok, control_out_overrun}
use me56ps2_emulator.Tests.Sample.{ring-IsValid, libc, libc-ReadsQuads, context, off_line, sock}

abbrev lucent_at : Text → Context → Outcome Context
lucent_at = process_at Model.lucent

-- "AT" and a carriage return, cut behind the first letter
read_lines_chunks_example :
    (read_lines true lucent_at (65 ∷ []) off_line >>= λ s.
    read_lines true lucent_at (s.0 ++ 84 ∷ 13 ∷ []) s.1)
    ≡ read_lines true lucent_at ((65 ∷ []) ++ 84 ∷ 13 ∷ []) off_line
read_lines_chunks_example = read_lines_chunks true lucent_at (65 ∷ []) (84 ∷ 13 ∷ []) off_line

offline_loop-feed_example :
    offline_loop true lucent_at 3 ((65 ∷ []) ++ 84 ∷ 13 ∷ []) off_line
    ≡ feed true lucent_at (65 ∷ []) (84 ∷ 13 ∷ []) off_line
offline_loop-feed_example =
    offline_loop-feed true lucent_at 3 (65 ∷ []) (84 ∷ 13 ∷ []) off_line ((omega arith, tt), refl)
      (omega arith)

abbrev at_text : Text
at_text = 65 ∷ 84 ∷ []

omron_payload_example :
    omron_payload false (packet 0 at_text (0 ∷ []))
    ≡ (if false && leb 32 (length at_text) then fault Fault.length_error else ok at_text)
omron_payload_example = omron_payload-packet false 0 at_text (0 ∷ []) (omega arith) (omega arith)

not_bare : bytes "ATDT100" ≢ bytes "ATD"
unfolding bytes
not_bare e = absurd cc

granted : got 1 ≢ fail
granted e = absurd cc

process_at_lem_example :
    EndsIn
      (Answered Model.omron (bytes "ATDT100") off_line)
      (process_at Model.omron (bytes "ATDT100") off_line)
process_at_lem_example =
    process_at_lem Model.omron (bytes "ATDT100") off_line pty_dev ring-IsValid not_bare refl granted

bare_dial_example : process_at Model.smart_scm (bytes "ATD") off_line ≡ fault Fault.out_of_range
bare_dial_example = process_at_bare_dial Model.smart_scm off_line (sock 5) refl

is_ppp_number_example :
    (is_ppp_number (bytes "T100-") ≡ true)
    ↔ ((q b e : Text) × (bytes "T100-" ≡ q ++ (b ++ e)) × DialPrefix q × Provider b × Suffix e)
is_ppp_number_example = is_ppp_number_iff (bytes "T100-")

abbrev home : ℕ → SockAddr
home port = record {
  sin_family = af_inet;
  sin_port = htons port;
  sin_addr = 127 + 256 * (0 + 256 * (0 + 256 * 1));
}

parse_address_port_example :
    parse_address libc (quad b'-' 127 0 0 1 ++ b'#' ∷ decimal 8000) ≡ some (home 8000)
parse_address_port_example =
    parse_address_port libc (omega arith) libc-ReadsQuads 127 0 0 1 (omega arith) (omega arith)
      (omega arith) (omega arith) 8000 (omega arith) (omega arith)

parse_address_sound_example :
    (a b c d port : ℕ) × Numbers libc (quad b'-' 127 0 0 1) a b c d port
    × (a ≤ 255)
    × (b ≤ 255)
    × (c ≤ 255)
    × (d ≤ 255)
    × (1 ≤ port)
    × (port ≤ 65535)
    × (home tcp_default_port ≡ sock_addr libc a b c d port)
parse_address_sound_example =
    parse_address_sound libc (quad b'-' 127 0 0 1) (home tcp_default_port) (
      parse_address_default libc (omega arith) libc-ReadsQuads 127 0 0 1 (omega arith) (omega arith)
        (omega arith) (omega arith))

abbrev commands : ℕ → Text
commands zero = 0x40 ∷ []
commands (suc n) = 0x40 ∷ 0x04 ∷ 0 ∷ commands n

abbrev full_packet : Text
full_packet = commands 21

control_out_ok_example :
    (d : Context) × (control_out full_packet 62 context ≡ ok d) × HangsUp context d
control_out_ok_example = control_out_ok full_packet refl context 62 (omega arith)

commands_at : (n j : ℕ) → j ≤ n → get_elem? (commands n) (j * 3) ≡ some 0x40
commands_at zero zero h = refl
commands_at zero (suc j) h = absurd (omega arith)
commands_at (suc n) zero h = refl
commands_at (suc n) (suc j) h =
    let e : suc j * 3 ≡ suc (suc (suc (j * 3))) = omega arith in
    rw e (commands_at n j (omega arith))

control_out_overrun_example : control_out full_packet 64 context ≡ fault Fault.out_of_bounds
control_out_overrun_example =
    control_out_overrun full_packet refl context (λ j h. commands_at 21 j (omega arith))
