-- ===== src/Main/Begun.antt =====
-- The state that `main` (src/main_app.cpp) hands to the event loop, whatever the system grants it.
use me56ps2_emulator.Prelude.{◌∙◌, refl, ℕ, ◌≤◌, Bool, Option, none, some, List, length, arith}
use me56ps2_emulator.Text.{Text}
use me56ps2_emulator.RingBuffer.Fifo.{ring_buffer-IsValid}
use me56ps2_emulator.PtyDev.{pty_dev}
use me56ps2_emulator.TcpSock
use me56ps2_emulator.TcpSock.Laws.{tcp_sock-same}
use me56ps2_emulator.Os.{◌>>=◌, Os, IfOk, IfOk-bind, ok}
use me56ps2_emulator.Context.Healthy.{SameAnswers, Able}
use me56ps2_emulator.Usb.Gadget.Laws.{usb_raw_gadget-same, init-same, run-same}
use me56ps2_emulator.Main.{
  run, init, usb_raw_gadget, Udc, server_addr, socket_args, Opt, Options, Parsed, Started, exit,
  options, exited, started, parse_options, default_modem, defaults, start, set_up, open_gadget,
  open_sock,
}
use me56ps2_emulator.Main.Laws.{Fresh}

open_gadget-same :
    (level : ℕ) (udc : Udc) (os : Os) → IfOk (λ r. SameAnswers os r.1) (open_gadget level udc os)
unfolding open_gadget
open_gadget-same level udc os =
    IfOk-bind (λ r. SameAnswers os r.1) (λ r. SameAnswers os r.1) (usb_raw_gadget _ os) _
      (usb_raw_gadget-same _ os)
      (λ r e.
        IfOk-bind (SameAnswers r.1) (λ r. SameAnswers os r.1) (init udc r.1) _ (init-same udc r.1)
          (λ os' f.
            IfOk-bind (SameAnswers os') (λ r. SameAnswers os r.1) (run os') _ (run-same os')
              (λ os'' h. h ∙ f ∙ e)))

open_sock-same :
    (is_server : Bool) (args : Option (Text × ℕ)) (os : Os)
    → IfOk (λ r. SameAnswers os r.1) (open_sock is_server args os)
unfolding open_sock
open_sock-same is_server none os = refl
open_sock-same is_server (some (ip_addr, port)) os =
    let addr = server_addr os.libc ip_addr port in
    IfOk-bind (λ r. SameAnswers os r.1) (λ r. SameAnswers os r.1)
      (TcpSock.tcp_sock is_server addr os) _ (tcp_sock-same is_server addr os) (λ r e. e)

abbrev StartsFresh : Started → Type 0
StartsFresh (exited status) = Unit {0}
StartsFresh (started modem c) = Fresh c

module _ (storage : List ℕ) (udc : Udc) (args : List Text) (os : Os) (l : 524288 ≤ length storage)
    (a : Able os.answers) where
  set_up-Fresh : (o : Options) → IfOk Fresh (set_up storage udc o args os)
  unfolding set_up
  set_up-Fresh o =
      let (v, e) = ring_buffer-IsValid storage 524288 (omega arith) (omega arith) l in
      IfOk-bind (λ r. SameAnswers os r.1) Fresh (open_gadget o.debug_level udc os) _
        (open_gadget-same o.debug_level udc os)
        (λ (gadget, os1) s.
          let args' = socket_args os.libc args in
          IfOk-bind (λ r. SameAnswers os1 r.1) Fresh (open_sock o.is_server args' os1) _
            (open_sock-same o.is_server args' os1)
            (λ r t.
              let able : Able r.1.answers = rw (t ∙ s) a in
              (record { buffer = v; terminal = (pty_dev, refl); able = able }, e, refl)))

  -- Where `main` gets to the event loop, the state is healthy, off line and without bytes to send.
  pub start-Fresh : (opts : List Opt) → IfOk StartsFresh (start storage udc opts args os)
  unfolding start
  start-Fresh opts = by_options (parse_options opts defaults)
    where
      by_options :
          (parsed : Parsed)
          → IfOk StartsFresh (elim parsed [
            | exit status ↦ ok (exited status)
            | options o ↦
                let o' = default_modem o in
                set_up storage udc o' args os >>= λ c. ok (started o'.current_modem c)
          ])
      by_options (exit status) = tt
      by_options (options o) =
          IfOk-bind Fresh StartsFresh (set_up storage udc (default_modem o) args os) _
            (set_up-Fresh (default_modem o)) (λ c f. f)
