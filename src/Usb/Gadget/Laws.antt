-- ===== src/Usb/Gadget/Laws.antt =====
-- Where the system grants its calls, the gadget of src/usb_raw_gadget.cpp opens and runs.
use me56ps2_emulator.Prelude.{refl, inl, inr}
use me56ps2_emulator.Text.{Text}
use me56ps2_emulator.Os.{IfOk-bind, IfOk, Os, Syscall, EndsIn, EndsIn-bind, Ret-cases}
use me56ps2_emulator.Context.Healthy.{SameAnswers}
use me56ps2_emulator.Usb.Device.{ioctl}
use me56ps2_emulator.Usb.Request.Laws.{Grants, ioctl-answers}
use me56ps2_emulator.Usb.Gadget.{Udc, usb_raw_gadget, init, run}

pub usb_raw_gadget-answers :
    (file : Text) (os : Os) → Grants os → EndsIn (λ r. SameAnswers os r.1) (usb_raw_gadget file os)
unfolding usb_raw_gadget
usb_raw_gadget-answers file os g = elim (Ret-cases (os.answers os.clock (Syscall.usb_open file))) [
  | inl e ↦ absurd (g os.clock (Syscall.usb_open file) e)
  | inr (fd, e) ↦ simp (e, usb_raw_gadget) refl
]

pub init-answers : (udc : Udc) (os : Os) → Grants os → EndsIn (SameAnswers os) (init udc os)
unfolding init
init-answers udc os g =
    EndsIn-bind (λ r. SameAnswers os r.1) (SameAnswers os) (ioctl _ os) _ (ioctl-answers _ os g)
      (λ r e. e)

pub run-answers : (os : Os) → Grants os → EndsIn (SameAnswers os) (run os)
unfolding run
run-answers os g =
    EndsIn-bind (λ r. SameAnswers os r.1) (SameAnswers os) (ioctl _ os) _ (ioctl-answers _ os g)
      (λ r e. e)

-- Whatever the system grants: where these return, it answers as before.
ioctl-same : (call : Syscall) (os : Os) → IfOk (λ r. SameAnswers os r.1) (ioctl call os)
unfolding ioctl
ioctl-same call os = elim (Ret-cases (os.answers os.clock call)) [
  | inl e ↦ simp (e, ioctl) tt
  | inr (n, e) ↦ simp (e, ioctl) refl
]

pub usb_raw_gadget-same :
    (file : Text) (os : Os) → IfOk (λ r. SameAnswers os r.1) (usb_raw_gadget file os)
unfolding usb_raw_gadget
usb_raw_gadget-same file os = elim (Ret-cases (os.answers os.clock (Syscall.usb_open file))) [
  | inl e ↦ simp (e, usb_raw_gadget) tt
  | inr (fd, e) ↦ simp (e, usb_raw_gadget) refl
]

pub init-same : (udc : Udc) (os : Os) → IfOk (SameAnswers os) (init udc os)
unfolding init
init-same udc os =
    IfOk-bind (λ r. SameAnswers os r.1) (SameAnswers os) (ioctl _ os) _ (ioctl-same _ os) (λ r e. e)

pub run-same : (os : Os) → IfOk (SameAnswers os) (run os)
unfolding run
run-same os =
    IfOk-bind (λ r. SameAnswers os r.1) (SameAnswers os) (ioctl _ os) _ (ioctl-same _ os) (λ r e. e)
