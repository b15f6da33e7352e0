-- ===== src/System/Reach.antt =====
-- What holds after any number of turns of the threads, in any order.
use me56ps2_emulator.Prelude.{Bool, ◌≡◌, ap, sym, ◌∙◌, [], ◌++◌, append-nil, append_assoc}
use me56ps2_emulator.Os.{ok}
use me56ps2_emulator.Context.Healthy.{Healthy}
use me56ps2_emulator.Modem.At.{Model}
use me56ps2_emulator.System.{System, Event, step}
use me56ps2_emulator.System.Steps.{Continues, Allowed, step-Continues, stream}

-- the states that turns lead to
pub data Reach (signed_char : Bool) (model : Model) (s : System) : System → Type 0 where
  start : Reach signed_char model s s
  next :
      (t u : System) (event : Event)
      → Reach signed_char model s t
      → Allowed signed_char model event t
      → step signed_char model event t ≡ ok u
      → Reach signed_char model s u

Continues-trans : (s t u : System) → Continues s t → Continues t u → Continues s u
Continues-trans s t u (_, (a, e)) (h, (b, f)) =
    (h, (a ++ b, f ∙ ap (λ l. l ++ b) e ∙ append_assoc (stream s) a b))

-- In every state that turns lead to from a healthy one, where the framing of each packet is right and
-- the game completes no bare `ATD`, the state is healthy, and what the game has read and what waits for
-- it begins with what it had read and what waited for it at the start.
pub Reach-Continues :
    (signed_char : Bool) (model : Model) (s t : System)
    → Healthy s.context
    → Reach signed_char model s t
    → Continues s t
Reach-Continues signed_char model s _ h start = (h, ([], sym (append-nil (stream s))))
Reach-Continues signed_char model s _ h (next t u event r allowed e) =
    let c = Reach-Continues signed_char model s t h r in
    let ends = step-Continues signed_char model event t allowed c.0 in
    Continues-trans s t u c (rw e at ends)
