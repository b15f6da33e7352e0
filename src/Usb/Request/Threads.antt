-- ===== src/Usb/Request/Threads.antt =====
-- `handle_set_configuration` of the modems: which threads a host can start.
use me56ps2_emulator.Prelude.{
  ◌≡◌, refl, ap, inl, inr, Bool, true, false, ◌||◌, Option, none, some, [], ◌∷◌, ==_refl,
  Bool-cases,
}
use me56ps2_emulator.Os.{Syscall, Outcome, ok, fault, running, Ret-cases, ◌>>=◌}
use me56ps2_emulator.Usb.Descriptor.{EndpointDescriptor}
use me56ps2_emulator.Usb.Device.{Thread, thread_index, Device, is_started, ioctl}
use me56ps2_emulator.Usb.Request.Handlers.{Plan, start_thread, start_threads}

-- what holds of the result, if there is one
abbrev pub Post {ℓ} : {A : Type ℓ} → (A → Type 0) → Outcome A → Type 0
Post P (ok a) = P a
Post P _ = Unit {0}

Post-bind {ℓ κ} :
    {A : Type ℓ} {B : Type κ} (P : A → Type 0) (Q : B → Type 0) (m : Outcome A) (f : A → Outcome B)
    → Post P m
    → ((a : A) → P a → Post Q (f a))
    → Post Q (m >>= f)
Post-bind P Q (ok a) f h k = k a h
Post-bind P Q (fault e) f h k = tt
Post-bind P Q running f h k = tt

abbrev AllStarted : Plan → Device → Type 0
AllStarted [] d = Unit {0}
AllStarted ((thread, none) ∷ plan) d = ⊥
AllStarted ((thread, some endpoint) ∷ plan) d =
    (is_started thread d.threads ≡ true) × AllStarted plan d

or_right : (a b : Bool) → b ≡ true → a || b ≡ true
or_right true b h = refl
or_right false b h = h

abbrev Started : Thread → Device → Type 0
Started t d = is_started t d.threads ≡ true

abbrev enable : EndpointDescriptor → Syscall
enable endpoint = Syscall.ep_enable endpoint.b_endpoint_address

start_thread_keeps :
    (t thread : Thread) (endpoint : Option EndpointDescriptor) (d : Device)
    → Started t d
    → Post (Started t) (start_thread thread endpoint d)
unfolding start_thread ioctl is_started
start_thread_keeps t thread none d h = tt
start_thread_keeps t thread (some endpoint) d h = elim (Bool-cases (is_started thread d.threads)) [
  | inl on ↦ simp (on, start_thread) h
  | inr off ↦ elim (Ret-cases (d.context.os.answers d.context.os.clock (enable endpoint))) [
    | inl e ↦ simp (off, start_thread, e, ioctl) tt
    | inr (n, e) ↦ simp (off, start_thread, e, ioctl) (or_right _ _ h)
  ]
]

start_thread_starts :
    (thread : Thread) (endpoint : EndpointDescriptor) (d : Device)
    → Post (Started thread) (start_thread thread (some endpoint) d)
unfolding start_thread ioctl is_started
start_thread_starts thread endpoint d = elim (Bool-cases (is_started thread d.threads)) [
  | inl on ↦ simp (on, start_thread) refl
  | inr off ↦ elim (Ret-cases (d.context.os.answers d.context.os.clock (enable endpoint))) [
    | inl e ↦ simp (off, start_thread, e, ioctl) tt
    | inr (n, e) ↦
        simp (off, start_thread, e, ioctl) (ap (λ b. b || false) (==_refl (thread_index thread)))
  ]
]

start_threads_keeps :
    (t : Thread) (plan : Plan) (d : Device) → Started t d → Post (Started t) (start_threads plan d)
unfolding start_threads
start_threads_keeps t [] d h = h
start_threads_keeps t ((thread, endpoint) ∷ plan) d h =
    Post-bind (Started t) (Started t) (start_thread thread endpoint d) _
      (start_thread_keeps t thread endpoint d h) (λ d' h'. start_threads_keeps t plan d' h')

Post-and {ℓ} :
    {A : Type ℓ} (P Q : A → Type 0) (m : Outcome A) → Post P m → Post Q m → Post (λ a. P a × Q a) m
Post-and P Q (ok a) p q = (p, q)
Post-and P Q (fault e) p q = tt
Post-and P Q running p q = tt

start_threads-AllStarted :
    (plan : Plan) (d : Device) → Post (AllStarted plan) (start_threads plan d)
unfolding start_threads start_thread
start_threads-AllStarted [] d = tt
start_threads-AllStarted ((thread, none) ∷ plan) d = tt
start_threads-AllStarted ((thread, some endpoint) ∷ plan) d =
    Post-bind (Started thread) _ (start_thread thread (some endpoint) d) _
      (start_thread_starts thread endpoint d)
      (λ d' h.
        Post-and (Started thread) (AllStarted plan) (start_threads plan d')
          (start_threads_keeps thread plan d' h) (start_threads-AllStarted plan d'))

start_threads_of_all : (plan : Plan) (d : Device) → AllStarted plan d → start_threads plan d ≡ ok d
unfolding start_threads start_thread
start_threads_of_all [] d h = refl
start_threads_of_all ((thread, none) ∷ plan) d h = elim h [ ]
start_threads_of_all ((thread, some endpoint) ∷ plan) d (h, hs) =
    simp (h, start_threads, start_thread) (start_threads_of_all plan d hs)

bind-Post {ℓ} :
    {A : Type ℓ} (P : A → Type 0) (m : Outcome A) (f : A → Outcome A)
    → Post P m
    → ((a : A) → P a → f a ≡ ok a)
    → (m >>= f) ≡ m
bind-Post P (ok a) f h k = k a h
bind-Post P (fault e) f h k = refl
bind-Post P running f h k = refl

-- A host that sets the configuration again starts no thread, enables no endpoint and changes nothing
-- of the device by the start of threads: doing it twice is doing it once, also where it fails.
pub start_threads_twice :
    (plan : Plan) (d : Device)
    → (start_threads plan d >>= start_threads plan) ≡ start_threads plan d
start_threads_twice plan d =
    bind-Post (AllStarted plan) (start_threads plan d) (start_threads plan)
      (start_threads-AllStarted plan d) (start_threads_of_all plan)
