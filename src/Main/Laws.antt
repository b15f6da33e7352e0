-- ===== src/Main/Laws.antt =====
-- What `main` (src/main_app.cpp) starts with.
use me56ps2_emulator.Usb.Gadget.Laws.{run-answers, init-answers, usb_raw_gadget-answers}
use me56ps2_emulator.Prelude.{
  ◌≡◌, refl, ap, sym, ◌∙◌, inl, inr, ℕ, ◌+◌, ◌≤◌, Bool, true, false, ◌||◌, Option, none, some, List,
  [], ◌∷◌, length, arith,
}
use me56ps2_emulator.Text.{Text, bytes, eq_text, eq_text_iff}
use me56ps2_emulator.RingBuffer.Inv.{contents}
use me56ps2_emulator.RingBuffer.Fifo.{ring_buffer-IsValid}
use me56ps2_emulator.PtyDev.{pty_dev}
use me56ps2_emulator.TcpSock
use me56ps2_emulator.Os.{◌>>=◌, Os, EndsIn, EndsIn-bind, ok}
use me56ps2_emulator.Context.{Context}
use me56ps2_emulator.Context.Healthy.{SameAnswers, Healthy, Able}
use me56ps2_emulator.Usb.Request.Laws.{Grants}
use me56ps2_emulator.Modem.At.{Model}
use me56ps2_emulator.Modem.Registry.{Instance, name_of, registry, get_instance}
use me56ps2_emulator.Modem.Registry.Laws.{OneAlive, NoneNamed, get_instance_lem}
use me56ps2_emulator.Main.{
  run, init, usb_raw_gadget, Udc, server_addr, socket_args, Opt, Options, Parsed, Started, exit,
  options, exited, started, opt_m, opt_s, opt_v, opt_h, opt_other, parse_options, default_modem,
  defaults, start, set_up, open_gadget, open_sock,
}

unfoldable pub is_model : Text → Bool
is_model name =
    eq_text (bytes "Lucent") name
    || eq_text (bytes "Omron") name
    || eq_text (bytes "OnlineStation") name
    || eq_text (bytes "SmartSCM") name

-- The status with which options end the program, by the first that does.
abbrev pub exit_status : List Opt → Option ℕ
exit_status [] = none
exit_status (opt_m name ∷ opts) = elim (is_model name) [ true ↦ exit_status opts | false ↦ some 1 ]
exit_status (opt_h ∷ opts) = some 0
exit_status (opt_other ∷ opts) = some 1
exit_status (_ ∷ opts) = exit_status opts

-- the last `-m`, or else what there was
abbrev pub chosen : Text → List Opt → Text
chosen name [] = name
chosen name (opt_m name' ∷ opts) = chosen name' opts
chosen name (_ ∷ opts) = chosen name opts

abbrev Chosen : Text → Option Instance → Type 0
Chosen name none = name ≡ bytes "Omron"
Chosen name (some i) = name_of i.model ≡ name

name_of-is_model : (model : Model) → is_model (name_of model) ≡ true
unfolding is_model name_of bytes eq_text
name_of-is_model Model.lucent = refl
name_of-is_model Model.omron = refl
name_of-is_model Model.online_station = refl
name_of-is_model Model.smart_scm = refl

NoneNamed-is_model : (name : Text) → NoneNamed name registry → is_model name ≡ false
unfolding is_model name_of
NoneNamed-is_model name (l, (o, (n, (s, _)))) = ground (
  arith,
  eq_text_iff (bytes "Lucent") name,
  eq_text_iff (bytes "Omron") name,
  eq_text_iff (bytes "OnlineStation") name,
  eq_text_iff (bytes "SmartSCM") name,
)

-- what the options come to, by the status to exit with and the name of the modem
abbrev Verdict : Option ℕ → Text → Parsed → Type 0
Verdict status name (exit n) = status ≡ some n
Verdict status name (options o) =
    (status ≡ none) × OneAlive o.registry × Chosen name o.current_modem

parse_options_lem :
    (opts : List Opt) (o : Options) (name : Text)
    → OneAlive o.registry
    → Chosen name o.current_modem
    → Verdict (exit_status opts) (chosen name opts) (parse_options opts o)
unfolding parse_options is_model eq_text bytes
parse_options_lem [] o name alive known = (refl, alive, known)
parse_options_lem (opt_m name' ∷ opts) o name alive known =
    let (found, alive', _) = get_instance_lem name' o.registry alive in
    elim found [
      | inl (i, e, f, n) ↦
          let is : is_model name' ≡ true = ap is_model (sym n) ∙ name_of-is_model i.model in
          simp (e, is, parse_options)
            (parse_options_lem opts
              (record o { current_modem = some i; registry = (get_instance name' o.registry).1 })
              name' alive' n)
      | inr (e, f, unknown) ↦ simp (e, NoneNamed-is_model name' unknown, parse_options) refl
    ]
parse_options_lem (opt_s ∷ opts) o name alive known =
    parse_options_lem opts (record o { is_server = true }) name alive known
parse_options_lem (opt_v ∷ opts) o name alive known =
    parse_options_lem opts (record o { debug_level = o.debug_level + 1 }) name alive known
parse_options_lem (opt_h ∷ opts) o name alive known = refl
parse_options_lem (opt_other ∷ opts) o name alive known = refl

omron_name : name_of Model.omron ≡ bytes "Omron"
unfolding name_of
omron_name = refl

default_modem_lem :
    (o : Options) (name : Text)
    → OneAlive o.registry
    → Chosen name o.current_modem
    → (i : Instance) × ((default_modem o).current_modem ≡ some i) × (name_of i.model ≡ name)
unfolding default_modem
default_modem_lem o name alive known = by_modem o.current_modem refl known
  where
    by_modem :
        (modem : Option Instance)
        → o.current_modem ≡ modem
        → Chosen name modem
        → (i : Instance) × ((default_modem o).current_modem ≡ some i) × (name_of i.model ≡ name)
    by_modem (some i) e known = (i, simp (e, default_modem) refl, known)
    by_modem none e known = elim (get_instance_lem (bytes "Omron") o.registry alive).0 [
      | inl (i, f, _, n) ↦ (i, simp (e, default_modem) f, n ∙ sym known)
      | inr (_, _, (_, (differs, _))) ↦ absurd (differs (omron_name))
    ]

-- What `main` hands to the event loop.
abbrev pub Ready : List Opt → Started → Type 0
Ready opts (exited status) = exit_status opts ≡ some status
Ready opts (started modem c) =
    (exit_status opts ≡ none)
    × ((i : Instance) × (modem ≡ some i) × (name_of i.model ≡ chosen (bytes "Omron") opts))
    × Healthy c
    × (contents c.usb_tx_buffer ≡ [])
    × (c.connected ≡ false)

open_gadget_ends :
    (level : ℕ) (udc : Udc) (os : Os)
    → Grants os
    → EndsIn (λ r. SameAnswers os r.1) (open_gadget level udc os)
unfolding open_gadget
open_gadget_ends level udc os g =
    EndsIn-bind (λ r. SameAnswers os r.1) (λ r. SameAnswers os r.1) (usb_raw_gadget _ os) _
      (usb_raw_gadget-answers _ os g)
      (λ r e.
        EndsIn-bind (SameAnswers r.1) (λ r. SameAnswers os r.1) (init udc r.1) _
          (init-answers udc r.1 (rw e g))
          (λ os' f.
            let same = f ∙ e in
            EndsIn-bind (SameAnswers os') (λ r. SameAnswers os r.1) (run os') _
              (run-answers os' (rw same g)) (λ os'' h. h ∙ same)))

open_sock_ends :
    (is_server : Bool) (args : Option (Text × ℕ)) (os : Os)
    → Grants os
    → EndsIn (λ r. SameAnswers os r.1) (open_sock is_server args os)
unfolding open_sock
open_sock_ends is_server none os g = refl
open_sock_ends is_server (some (ip_addr, port)) os g =
    let addr = server_addr os.libc ip_addr port in
    EndsIn-bind (λ r. SameAnswers os r.1) (λ r. SameAnswers os r.1)
      (TcpSock.tcp_sock is_server addr os) _ (TcpSock.Laws.tcp_sock_ends is_server addr os g)
      (λ r e. e)

abbrev pub Fresh : Context → Type 0
Fresh c = Healthy c × (contents c.usb_tx_buffer ≡ []) × (c.connected ≡ false)

set_up_lem :
    (storage : List ℕ) (udc : Udc) (o : Options) (args : List Text) (os : Os)
    → 524288 ≤ length storage
    → Grants os
    → Able os.answers
    → EndsIn Fresh (set_up storage udc o args os)
unfolding set_up
set_up_lem storage udc o args os l g a =
    let (v, e) = ring_buffer-IsValid storage 524288 (omega arith) (omega arith) l in
    EndsIn-bind (λ r. SameAnswers os r.1) Fresh (open_gadget o.debug_level udc os) _
      (open_gadget_ends o.debug_level udc os g)
      (λ (gadget, os1) s.
        let args' = socket_args os.libc args in
        EndsIn-bind (λ r. SameAnswers os1 r.1) Fresh (open_sock o.is_server args' os1) _
          (open_sock_ends o.is_server args' os1 (rw s g))
          (λ r t.
            let able : Able r.1.answers = rw (t ∙ s) a in
            (record { buffer = v; terminal = (pty_dev, refl); able = able }, e, refl)))

-- If the array of the buffer has its 524288 bytes and every call of the system succeeds, the program
-- exits exactly with the status that its options say, or it has the modem that was named last, the
-- Omron modem if none was, and a healthy state, off line and with nothing to send to the game.
pub start-Ready :
    (storage : List ℕ) (udc : Udc) (opts : List Opt) (args : List Text) (os : Os)
    → 524288 ≤ length storage
    → Grants os
    → Able os.answers
    → EndsIn (Ready opts) (start storage udc opts args os)
unfolding start
start-Ready storage udc opts args os l g a =
    by_options (parse_options opts defaults)
      (parse_options_lem opts defaults (bytes "Omron") (refl, refl) refl)
  where
    by_options :
        (parsed : Parsed)
        → Verdict (exit_status opts) (chosen (bytes "Omron") opts) parsed
        → EndsIn (Ready opts) (elim parsed [
          | exit status ↦ ok (exited status)
          | options o ↦
              let o' = default_modem o in
              set_up storage udc o' args os >>= λ c. ok (started o'.current_modem c)
        ])
    by_options (exit status) e = e
    by_options (options o) (going, alive, known) =
        EndsIn-bind Fresh (Ready opts) (set_up storage udc (default_modem o) args os) _
          (set_up_lem storage udc (default_modem o) args os l g a)
          (λ c (h, e, off). (going, default_modem_lem o _ alive known, h, e, off))
