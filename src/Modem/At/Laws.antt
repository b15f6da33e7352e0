-- ===== src/Modem/At/Laws.antt =====
-- `Modem::process_at` (src/modem.cpp), given a command to dial that says no more.
use me56ps2_emulator.Prelude.{
  append-nil, ◌≡◌, refl, ap, sym, ◌∙◌, inl, inr, true, false, Option, none, some, [], drop,
  Bool-cases,
}
use me56ps2_emulator.Text.{back, Text, bytes, eq_text, starts_with-append, starts_with}
use me56ps2_emulator.Text.Search.{find}
use me56ps2_emulator.TcpSock.{TcpSock}
use me56ps2_emulator.Os.{fault, Fault}
use me56ps2_emulator.Context.{Context, transmit}
use me56ps2_emulator.Modem.Number.{is_ppp_number}
use me56ps2_emulator.Modem.At.{
  lucent_ext, lucent_replies, online_station_replies, smart_scm_replies, Model, ext_reply,
  process_at_ext, echo_line, set_echo, command, dial, dial_p2p, process_at, substr,
}

bare_dial_ext : (model : Model) → ext_reply model (bytes "ATD") ≡ none
unfolding ext_reply bytes eq_text lucent_ext lucent_replies online_station_replies smart_scm_replies
bare_dial_ext Model.lucent = refl
bare_dial_ext Model.omron = refl
bare_dial_ext Model.online_station = refl
bare_dial_ext Model.smart_scm = refl

bare_dial_number : is_ppp_number (drop 3 (bytes "ATD")) ≡ false
unfolding bytes is_ppp_number eq_text find back
bare_dial_number = refl

bare_dial_substr : substr 4 (bytes "ATD") ≡ fault Fault.out_of_range
unfolding bytes
bare_dial_substr = refl

dial_p2p_bare :
    (sock : Option TcpSock) (c : Context) (s : TcpSock)
    → sock ≡ some s
    → dial_p2p sock (bytes "ATD") c ≡ fault Fault.out_of_range
unfolding dial_p2p
dial_p2p_bare sock c s e = simp (e, dial_p2p, bare_dial_substr)

echo_line_sock : (line : Text) (c : Context) → (echo_line line c).sock ≡ c.sock
unfolding echo_line transmit
echo_line_sock line c = elim (Bool-cases c.echo) [
  | inl e ↦ simp (e, echo_line)
  | inr e ↦ simp (e, echo_line)
]

command_bare_dial :
    (c : Context) (s : TcpSock)
    → c.sock ≡ some s
    → command (bytes "ATD") c ≡ fault Fault.out_of_range
unfolding command dial set_echo
command_bare_dial c s e =
    let starts : starts_with (bytes "ATD") (bytes "ATD") ≡ true =
      ap (starts_with (bytes "ATD")) (sym (append-nil (bytes "ATD")))
      ∙ starts_with-append (bytes "ATD") [] in
    simp (starts, command, dial, bare_dial_number)
      (dial_p2p_bare c.sock (set_echo (bytes "ATD") c) s e)

-- The line `ATD` throws on every modem, if there is a socket.
pub process_at_bare_dial :
    (model : Model) (c : Context) (s : TcpSock)
    → c.sock ≡ some s
    → process_at model (bytes "ATD") c ≡ fault Fault.out_of_range
unfolding process_at process_at_ext
process_at_bare_dial model c s e = simp (
  bare_dial_ext model,
  process_at,
  process_at_ext,
  command_bare_dial (echo_line (bytes "ATD") c) s (echo_line_sock (bytes "ATD") c ∙ e),
)
