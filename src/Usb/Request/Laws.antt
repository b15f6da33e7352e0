-- ===== src/Usb/Request/Laws.antt =====
-- `handle_set_configuration` of the modems and what it calls: it returns if the system calls do.
use me56ps2_emulator.Prelude.{
  ◌≤◌, arith, length, refl, ◌≡◌, ◌≢◌, inl, inr, ℕ, none, some, [], ◌∷◌, ◌==◌, Bool-cases,
}
use me56ps2_emulator.Os.{EndsIn, EndsIn-bind, EndsIn-if, Os, ok, fail, Ret-cases, Syscall}
use me56ps2_emulator.Modem.At.{Model}
use me56ps2_emulator.Usb.Descriptor.{EndpointDescriptor}
use me56ps2_emulator.Usb.Device.{Thread, Device, is_started, ioctl}
use me56ps2_emulator.Usb.Tables.Lucent
use me56ps2_emulator.Usb.Tables.Omron
use me56ps2_emulator.Usb.Tables.OnlineStation
use me56ps2_emulator.Usb.Tables.SmartScm
use me56ps2_emulator.Usb.Request.Model.{Request, low_byte}
use me56ps2_emulator.Usb.Request.Handlers.{
  Packet, Handled, Plan, start_thread, start_threads, thread_plan, configure,
  handle_set_configuration,
}

-- Every system call succeeds.
abbrev pub Grants : Os → Type 0
Grants os = (k : ℕ) (call : Syscall) → os.answers k call ≢ fail

abbrev pub Fine : Device → Type 0
Fine d = Grants d.context.os

-- The packet has its 256 bytes, and no more than these are to be sent.
abbrev pub Whole : Packet → Type 0
Whole p = (length p.data_buffer ≡ 256) × (p.header_length ≤ 256)

abbrev pub FineResult : Handled → Type 0
FineResult r = Fine r.2 × Whole r.1

pub ioctl_lem : (call : Syscall) (os : Os) → Grants os → EndsIn (λ r. Grants r.1) (ioctl call os)
unfolding ioctl
ioctl_lem call os g = elim (Ret-cases (os.answers os.clock call)) [
  | inl e ↦ absurd (g os.clock call e)
  | inr (n, e) ↦ simp (e, ioctl) g
]

-- A request that the system grants goes through, and changes nothing in how the system answers.
pub ioctl_ends :
    (call : Syscall) (os : Os)
    → os.answers os.clock call ≢ fail
    → EndsIn (λ r. r.1.answers ≡ os.answers) (ioctl call os)
unfolding ioctl
ioctl_ends call os granted = elim (Ret-cases (os.answers os.clock call)) [
  | inl e ↦ absurd (granted e)
  | inr (n, e) ↦ simp (e, ioctl) refl
]

pub ioctl-answers :
    (call : Syscall) (os : Os) → Grants os → EndsIn (λ r. r.1.answers ≡ os.answers) (ioctl call os)
ioctl-answers call os g = ioctl_ends call os (g os.clock call)

start_thread_lem :
    (thread : Thread) (endpoint : EndpointDescriptor) (d : Device)
    → Fine d
    → EndsIn Fine (start_thread thread (some endpoint) d)
unfolding start_thread
start_thread_lem thread endpoint d g = EndsIn-if Fine (is_started thread d.threads) (ok d) _ g (
    EndsIn-bind (λ r. Grants r.1) Fine
      (ioctl (Syscall.ep_enable endpoint.b_endpoint_address) d.context.os) _
      (ioctl_lem _ d.context.os g) (λ r h. h))

abbrev AllSome : Plan → Type 0
AllSome [] = Unit {0}
AllSome ((thread, none) ∷ plan) = ⊥
AllSome ((thread, some endpoint) ∷ plan) = AllSome plan

start_threads_lem :
    (plan : Plan) (d : Device) → AllSome plan → Fine d → EndsIn Fine (start_threads plan d)
unfolding start_threads
start_threads_lem [] d h g = g
start_threads_lem ((thread, none) ∷ plan) d h g = elim h [ ]
start_threads_lem ((thread, some endpoint) ∷ plan) d h g =
    EndsIn-bind Fine Fine (start_thread thread (some endpoint) d) _
      (start_thread_lem thread endpoint d g) (λ d' g'. start_threads_lem plan d' h g')

thread_plan-AllSome : (model : Model) (id : ℕ) → AllSome (thread_plan model id)
unfolding thread_plan Omron.endpoints OnlineStation.endpoints SmartScm.endpoints Lucent.endpoints2
thread_plan-AllSome Model.omron id = tt
thread_plan-AllSome Model.online_station id = tt
thread_plan-AllSome Model.lucent id = elim (Bool-cases (id == 2)) [
  | inl e ↦ simp (e, thread_plan) tt
  | inr e ↦ simp (e, thread_plan) tt
]
thread_plan-AllSome Model.smart_scm id = tt

pub set_configuration_lem :
    (model : Model) (e : Request) (pkt : Packet) (d : Device)
    → Whole pkt
    → Fine d
    → EndsIn FineResult (handle_set_configuration model e pkt d)
unfolding handle_set_configuration configure
set_configuration_lem model e pkt d (full, short) g =
    EndsIn-bind Fine FineResult (start_threads (thread_plan model (low_byte e.w_value)) d) _
      (start_threads_lem _ d (thread_plan-AllSome model (low_byte e.w_value)) g)
      (λ d' g'.
        EndsIn-bind (λ r. Grants r.1) FineResult (ioctl _ d'.context.os) _
          (ioctl_lem _ d'.context.os g')
          (λ r h.
            EndsIn-bind (λ r. Grants r.1) FineResult (ioctl _ r.1) _ (ioctl_lem _ r.1 h)
              (λ r' h'. (h', (full, omega arith)))))
