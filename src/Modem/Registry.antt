-- ===== src/Modem/Registry.antt =====
-- src/modem.cpp, `Modem::getInstance`: the one modem object, by the name of its model.
pub mod Laws
use me56ps2_emulator.Prelude.{
  ℕ, ◌+◌, Bool, true, false, Option, none, some, List, [], ◌∷◌, if◌then◌else◌,
}
use me56ps2_emulator.Text.{Text, bytes, eq_text}
use me56ps2_emulator.Modem.At.{Model}

-- A modem object: its class, and a number that tells it from every other object ever made.
pub record Instance : Type 0 where
  pub model : Model
  pub number : ℕ

-- The static variables `instance` and `instance_name`, which belong together, with the objects made
-- so far and those deleted, newest first.
pub record Registry : Type 0 where
  pub instance : Option Instance
  pub made : ℕ
  pub deleted : List ℕ

abbrev pub no_instance : Registry
no_instance = record { instance = none; made = 0; deleted = [] }

-- the names in `registry`
unfoldable pub name_of : Model → Text
name_of Model.lucent = bytes "Lucent"
name_of Model.omron = bytes "Omron"
name_of Model.online_station = bytes "OnlineStation"
name_of Model.smart_scm = bytes "SmartSCM"

abbrev pub registry : List Model
registry = Model.lucent ∷ Model.omron ∷ Model.online_station ∷ Model.smart_scm ∷ []

unfoldable find_entry : Text → List Model → Option Model
find_entry name [] = none
find_entry name (model ∷ rest) =
    if eq_text (name_of model) name then some model else find_entry name rest

delete : Option Instance → List ℕ → List ℕ
delete none deleted = deleted
delete (some old) deleted = old.number ∷ deleted

-- `instance != nullptr && strcmp(instance_name, name) == 0`
is_current : Text → Option Instance → Bool
is_current name none = false
is_current name (some i) = eq_text (name_of i.model) name

abbrev create : Model → Registry → Option Instance × Registry
create model r =
    let i : Instance = record { model = model; number = r.made } in
    (some i, record { instance = some i; made = r.made + 1; deleted = delete r.instance r.deleted })

unfoldable pub get_instance : Text → Registry → Option Instance × Registry
unfolding find_entry delete is_current
get_instance name r =
    if is_current name r.instance
    then (r.instance, r)
    else elim (find_entry name registry) [ none ↦ (none, r) | some model ↦ create model r ]
