-- ===== src/Modem/At.antt =====
-- src/modem.cpp, `Modem::process_at`: one AT command line, with the replies of the four modems'
-- `process_at_ext`.
pub mod Laws
pub mod Replies
use me56ps2_emulator.Prelude.{
  ℕ, Bool, true, false, ◌||◌, Option, none, some, List, [], ◌∷◌, ◌++◌, String, drop, length, ltb,
  if◌then◌else◌,
}
use me56ps2_emulator.Text.{Text, bytes, eq_text, starts_with}
use me56ps2_emulator.TcpSock
use me56ps2_emulator.TcpSock.{TcpSock}
use me56ps2_emulator.PtyDev
use me56ps2_emulator.PtyDev.{PtyDev}
use me56ps2_emulator.Isp.{setup_isp}
use me56ps2_emulator.Os.{Os, Outcome, ok, fault, running, Fault, ◌>>=◌}
use me56ps2_emulator.Context.{Context, transmit}
use me56ps2_emulator.Modem.Address.{parse_address, SockAddr}
use me56ps2_emulator.Modem.Number.{is_ppp_number}

-- what the `registry` of src/modem.cpp names
pub data Model : Type 0 where
  lucent omron online_station smart_scm : Model

abbrev pub is_line : String → Text → Bool
is_line command line = eq_text line (bytes command)

-- The replies of `process_at_ext`, with `none` for an empty `reply`: a ladder of comparisons.
abbrev pub select : List (Text × Text) → Text → Option Text
select [] line = none
select ((command, reply) ∷ rest) line =
    if eq_text line command then some reply else select rest line

abbrev answers : String → String → Text × Text
answers command reply = (bytes command, bytes reply)

pub lucent_replies : List (Text × Text)
lucent_replies =
    answers "AT+GMM" "\r\nH.324 video-ready rev. 1.0\r\n"
    ∷ answers "AT+FCLASS=?" "\r\n0,1,2"
    ∷ answers "ATI" "\r\nLT V.90 1.0 MT5634MU USB Data/Fax Modem Version 8.18j\r\n"
    ∷ answers "ATI0" "\r\nLT V.90 1.0 MT5634MU USB Data/Fax Modem Version 8.18j\r\n"
    ∷ answers "ATI3" "\r\nLT V.90 1.0 MT5634MU USB Data/Fax Modem Version 8.18j\r\n"
    ∷ answers "ATI1" "\r\nD092\r\n"
    ∷ answers "ATI4" "\r\n17\r\n"
    ∷ answers "ATI5" "\r\nU052099f,0,34\r\n"
    ∷ answers "ATI7" "\r\nGlobal2 Build\r\n"
    ∷ answers "ATI9" "\r\n52\r\n"
    ∷ []

pub online_station_replies : List (Text × Text)
online_station_replies =
    answers "ATI" "\r\nPCTel/SUN T2M V.90\r\n"
    ∷ answers "ATI0" "\r\nPCTel/SUN T2M V.90\r\n"
    ∷ answers "ATI1" "\r\nCHECKSUM F352\r\n"
    ∷ answers "ATI3" "\r\nREV 1.100.06-003-00D   February 16, 2001\r\n"
    ∷ answers "ATI4" "\r\nCE DRIVER REV   4.2.12   04/01/2000\r\n"
    ∷ answers "ATI5" "\r\nCOUNTRY CODE   8181\r\n"
    ∷ answers "ATI6" "\r\nRX Level  -47.9 dB\r\nTX Level    -14 dB\r\nSNR       -00.3 dB\r\n"
    ∷ answers "ATI7" "\r\nVF1 = PCT303D REV C    VF2 = PCT303W REV C    INTERNATIONAL\r\n"
    ∷ answers "ATI8" "\r\nV.90  ti 5402  @ 096 Mhz\r\n"
    ∷ answers "ATI9" "\r\nSolsis 1\r\n"
    ∷ []

pub smart_scm_replies : List (Text × Text)
smart_scm_replies =
    answers "ATI" "\r\n56000\r\n"
    ∷ answers "ATI0" "\r\n56000\r\n"
    ∷ answers "ATI1" "\r\n042\r\n"
    ∷ answers "ati3" "\r\nP2109-V90\r\n"
    ∷ answers "ATI4"
        "\r\na007080284C6002F\r\n\r\nbC60000000\r\n\r\nr1005111151012004\r\n\r\nr3000111170000000\r\n"
    ∷ answers "ATI5" "\r\nB5\r\n"
    ∷ answers "ATI6" "\r\nRCV56DPF-PLL L8773A Rev 14.00/34.00"
    ∷ []

abbrev with_ok : Option Text → Option Text
with_ok none = none
with_ok (some reply) = some (reply ++ bytes "\r\nOK\r\n")

-- What `process_at_ext` sends where it takes the command, `none` where it returns false.
pub lucent_ext : Text → Option Text
lucent_ext line =
    if is_line "AT#CLS=?" line || is_line "AT+GCI?" line || is_line "AT+GCI=?" line
    then some (bytes "\r\nERROR\r\n")
    else with_ok (select lucent_replies line)

unfoldable pub ext_reply : Model → Text → Option Text
unfolding lucent_ext
ext_reply Model.lucent line = lucent_ext line
ext_reply Model.omron line = none
ext_reply Model.online_station line = with_ok (select online_station_replies line)
ext_reply Model.smart_scm line = with_ok (select smart_scm_replies line)

-- `process_at_ext`: the context after it, and its result
unfoldable pub process_at_ext : Model → Text → Context → Bool × Context
process_at_ext model line c = elim (ext_reply model line) [
  | none ↦ (false, c)
  | some reply ↦ (true, transmit reply c)
]

abbrev pub ok_reply : Text
ok_reply = bytes "\r\nOK\r\n"

abbrev pub connect_reply : Text
connect_reply = bytes "CONNECT 57600 V42\r\n"

abbrev pub busy_reply : Text
busy_reply = bytes "BUSY\r\n"

-- what a command comes to: its reply, `enter_online`, and the context
abbrev pub Result : Type 0
Result = Text × Bool × Context

-- the provider, over the PTY
unfoldable pub dial_ppp : Option PtyDev → Context → Outcome Result
dial_ppp none c = fault Fault.null_pointer
dial_ppp (some p) c =
    let (done, p', os') = PtyDev.connect p c.os in
    if done
    then ok (
      connect_reply,
      true,
      record c { pty = some p'; os = setup_isp (PtyDev.get_slave_name p') os' },
    )
    else ok (busy_reply, false, record c { pty = some p'; os = os' })

-- `line.substr(4)`: it throws where the line is shorter.
abbrev pub substr : ℕ → Text → Outcome Text
substr pos line = if ltb (length line) pos then fault Fault.out_of_range else ok (drop pos line)

set_parsed : TcpSock → Option SockAddr → TcpSock
set_parsed s none = s
set_parsed s (some addr) = TcpSock.set_addr s addr

-- another player, over the socket
unfoldable pub dial_p2p : Option TcpSock → Text → Context → Outcome Result
unfolding set_parsed
dial_p2p none line c = ok (busy_reply, false, c)
dial_p2p (some s) line c = do
  number ← substr 4 line
  (done, s', os') ← TcpSock.connect (set_parsed s (parse_address c.os.libc number)) c.os
  let c' = record c { sock = some s'; os = os' }
  ok (if done then (connect_reply, true, c') else (busy_reply, false, c'))

unfoldable pub dial : Text → Context → Outcome Result
dial line c = if is_ppp_number (drop 3 line) then dial_ppp c.pty c else dial_p2p c.sock line c

-- the commands that set `echo`
unfoldable pub set_echo : Text → Context → Context
set_echo line c =
    let e = if is_line "ATZ" line || is_line "AT&F" line then true else c.echo in
    record c { echo = if is_line "ATE0" line then false else e }

unfoldable pub command : Text → Context → Outcome Result
command line c =
    let c' = set_echo line c in
    if starts_with (bytes "ATD") line
    then dial line c'
    else ok (if is_line "ATA" line then (connect_reply, true, c') else (ok_reply, false, c'))

abbrev finish : Result → Context
finish (reply, enter_online, c) =
    let c' = transmit reply c in if enter_online then record c' { connected = true } else c'

-- `if (echo)`: the line and a carriage return
unfoldable pub echo_line : Text → Context → Context
echo_line line c = if c.echo then transmit (line ++ bytes "\r") c else c

unfoldable pub process_at : Model → Text → Context → Outcome Context
process_at model line c =
    let (handled, c') = process_at_ext model line (echo_line line c) in
    if handled then ok c' else (command line c' >>= λ r. ok (finish r))
