-- ===== src/Os.antt =====
-- The operating system that the sources call: system calls with their answers, and the ways in
-- which a function of the sources can end. Which answers come is open: `answers` gives the one to
-- each call, by its number from the start on, and every theorem holds for all of them.
use me56ps2_emulator.Prelude.{
  true, if◌then◌else◌, Bool, [], inl, inr, ◌⊎◌, ◌≢◌, false, Option, ◌==◌, arith, ◌≡◌, refl, ℕ, ◌+◌,
  List, ◌∷◌,
}
use me56ps2_emulator.Text.{Text}
use me56ps2_emulator.Modem.Address.{Libc, SockAddr}

-- What a call returns: a negative number, or this one.
pub data Ret : Type 0 where
  fail : Ret
  got : ℕ → Ret

-- The calls, with the arguments that matter. A thread that is created is `recv_thread` or
-- `listen_thread`; `join` waits for the
-- one that reads a descriptor, and `join_listen` for `listen_thread`.
pub data Syscall : Type 0 where
  socket posix_openpt waitpid listen_thread join_listen : Syscall
  connect bind : ℕ → SockAddr → Syscall
  accept : Option ℕ → Syscall
  listen close grantpt unlockpt tcgetattr tcsetattr ptsname_r recv_thread join select recv read :
      ℕ → Syscall
  send write : ℕ → Text → Syscall
  fork : List Text → Syscall
  -- the gadget of src/usb_raw_gadget.cpp: its device file, and the `ioctl` requests on it
  usb_open : Text → Syscall
  usb_init : Text → Text → Syscall
  usb_run event_fetch eps_info : Syscall
  ep_write : ℕ → Text → Syscall
  ep_read : ℕ → Syscall
  ep_enable vbus_draw ep0_read : ℕ → Syscall
  usb_configure ep0_stall : Syscall
  ep0_write : Text → Syscall

pub record Os : Type 0 where
  pub answers : ℕ → Syscall → Ret
  pub clock : ℕ
  -- the calls made, newest first, with their answers
  pub trace : List (Syscall × Ret)
  pub libc : Libc
  -- the name that `ptsname_r` writes for a descriptor
  pub slave_path : ℕ → Text
  -- what the call of that number puts into the buffer that it is given
  pub incoming : ℕ → Text

abbrev pub syscall : Syscall → Os → Ret × Os
syscall call os =
    let ret = os.answers os.clock call in
    (ret, record os { clock = os.clock + 1; trace = (call, ret) ∷ os.trace })

-- a call whose result is not looked at
abbrev pub perform : Syscall → Os → Os
perform call os = (syscall call os).1

pub data Fault : Type 0 where
  runtime_error out_of_range length_error null_pointer out_of_bounds : Fault

-- `running`: the fuel of a loop ran out. A fault is an exception that nothing catches, or an access
-- that C++ leaves undefined; both end the emulator or worse.
pub data Outcome {ℓ} (A : Type ℓ) : Type ℓ where
  ok : A → Outcome A
  fault : Fault → Outcome A
  running : Outcome A

infixl 5 ◌>>=◌
abbrev pub ◌>>=◌ {ℓ κ} : {A : Type ℓ} {B : Type κ} → Outcome A → (A → Outcome B) → Outcome B
ok a >>= f = f a
fault e >>= f = fault e
running >>= f = running

pub >>=_cong {ℓ κ} :
    {A : Type ℓ} {B : Type κ} (m : Outcome A) (f g : A → Outcome B)
    → ((a : A) → f a ≡ g a)
    → (m >>= f) ≡ (m >>= g)
>>=_cong (ok a) f g h = h a
>>=_cong (fault e) f g h = refl
>>=_cong running f g h = refl

pub >>=_assoc {ℓ κ μ} :
    {A : Type ℓ} {B : Type κ} {C : Type μ} (m : Outcome A) (f : A → Outcome B) (g : B → Outcome C)
    → ((m >>= f) >>= g) ≡ (m >>= λ a. f a >>= g)
>>=_assoc (ok a) f g = refl
>>=_assoc (fault e) f g = refl
>>=_assoc running f g = refl

-- Facts on the calls that the proofs about the devices share.
pub Ret-cases : (ret : Ret) → (ret ≡ fail) ⊎ ((n : ℕ) × (ret ≡ got n))
Ret-cases fail = inl refl
Ret-cases (got n) = inr (n, refl)

pub nonzero : (n : ℕ) → n ≢ 0 → n == 0 ≡ false
nonzero n ne = ground arith

-- the system behind a call, with its answer given
abbrev pub logged : Syscall → Ret → Os → Os
logged call ret os = record os { clock = os.clock + 1; trace = (call, ret) ∷ os.trace }

-- a number for each call, summed over the trace
abbrev pub total : (Syscall × Ret → ℕ) → List (Syscall × Ret) → ℕ
total f [] = 0
total f (entry ∷ trace) = f entry + total f trace

abbrev pub one_if : Bool → ℕ
one_if b = if b then 1 else 0

-- how often a descriptor was closed
abbrev pub closed_by : ℕ → Syscall × Ret → ℕ
closed_by fd (Syscall.close fd', ret) = one_if (fd == fd')
closed_by fd _ = 0

-- The code returns, and `P` holds of the result.
abbrev pub EndsIn {ℓ} : {A : Type ℓ} → (A → Type 0) → Outcome A → Type 0
EndsIn P (ok a) = P a
EndsIn P (fault e) = ⊥
EndsIn P running = ⊥

pub EndsIn-bind {ℓ κ} :
    {A : Type ℓ} {B : Type κ} (P : A → Type 0) (Q : B → Type 0) (m : Outcome A) (f : A → Outcome B)
    → EndsIn P m
    → ((a : A) → P a → EndsIn Q (f a))
    → EndsIn Q (m >>= f)
EndsIn-bind P Q (ok a) f h k = k a h
EndsIn-bind P Q (fault e) f h k = elim h [ ]
EndsIn-bind P Q running f h k = elim h [ ]

-- what comes behind a call that returns fails, and so does the whole
pub EndsIn-fault {ℓ κ} :
    {A : Type ℓ} {B : Type κ} (P : A → Type 0) (m : Outcome A) (f : A → Outcome B) (x : Fault)
    → EndsIn P m
    → ((a : A) → P a → f a ≡ fault x)
    → (m >>= f) ≡ fault x
EndsIn-fault P (ok a) f x h k = k a h
EndsIn-fault P (fault e) f x h k = elim h [ ]
EndsIn-fault P running f x h k = elim h [ ]

pub EndsIn-if {ℓ} :
    {A : Type ℓ} (P : A → Type 0) (b : Bool) (x y : Outcome A)
    → EndsIn P x
    → EndsIn P y
    → EndsIn P (if b then x else y)
EndsIn-if P true x y h k = h
EndsIn-if P false x y h k = k

pub EndsIn-map {ℓ} :
    {A : Type ℓ} (P Q : A → Type 0) (m : Outcome A)
    → EndsIn P m
    → ((a : A) → P a → Q a)
    → EndsIn Q m
EndsIn-map P Q (ok a) h k = k a h
EndsIn-map P Q (fault e) h k = elim h [ ]
EndsIn-map P Q running h k = elim h [ ]

-- If the code returns, `P` holds of the result.
abbrev pub IfOk {ℓ} : {A : Type ℓ} → (A → Type 0) → Outcome A → Type 0
IfOk P (ok a) = P a
IfOk P _ = Unit {0}

pub IfOk-bind {ℓ κ} :
    {A : Type ℓ} {B : Type κ} (P : A → Type 0) (Q : B → Type 0) (m : Outcome A) (f : A → Outcome B)
    → IfOk P m
    → ((a : A) → P a → IfOk Q (f a))
    → IfOk Q (m >>= f)
IfOk-bind P Q (ok a) f h k = k a h
IfOk-bind P Q (fault e) f h k = tt
IfOk-bind P Q running f h k = tt
