-- ===== src/Modem/Registry/Laws.antt =====
-- `Modem::getInstance` (src/modem.cpp) keeps one modem object.
use me56ps2_emulator.Prelude.{
  ◌≡◌, ◌≢◌, ◌⊎◌, refl, inl, inr, ℕ, zero, suc, ◌+◌, true, Option, none, some, List, [], ◌∷◌,
  Bool-cases, arith,
}
use me56ps2_emulator.Text.{Text, eq_text, eq_text_iff}
use me56ps2_emulator.Modem.At.{Model}
use me56ps2_emulator.Modem.Registry.{
  Instance, Registry, name_of, registry, find_entry, is_current, delete, create, get_instance,
}

-- the numbers below `n`, downwards
abbrev pub countdown : ℕ → List ℕ
countdown zero = []
countdown (suc n) = n ∷ countdown n

abbrev pub OneOf : ℕ → List ℕ → Option Instance → Type 0
OneOf made deleted none = (made ≡ 0) × (deleted ≡ [])
OneOf made deleted (some i) = (made ≡ suc i.number) × (deleted ≡ countdown i.number)

-- Of all objects ever made each has been deleted once, but for the present one.
abbrev pub OneAlive : Registry → Type 0
OneAlive r = OneOf r.made r.deleted r.instance

abbrev pub NoneNamed : Text → List Model → Type 0
NoneNamed name [] = Unit {0}
NoneNamed name (model ∷ rest) = (name_of model ≢ name) × NoneNamed name rest

find_entry_lem :
    (name : Text) (models : List Model)
    → ((model : Model) × (find_entry name models ≡ some model) × (name_of model ≡ name))
      ⊎ ((find_entry name models ≡ none) × NoneNamed name models)
unfolding find_entry
find_entry_lem name [] = inr (refl, tt)
find_entry_lem name (model ∷ rest) = elim (Bool-cases (eq_text (name_of model) name)) [
  | inl e ↦ inl (model, simp (e, find_entry), (eq_text_iff (name_of model) name).0 e)
  | inr ne ↦
      let differs : name_of model ≢ name =
        λ e. absurd (let t = (eq_text_iff (name_of model) name).1 e in cc) in
      elim (find_entry_lem name rest) [
        | inl (m, f, e) ↦ inl (m, simp (ne, find_entry) f, e)
        | inr (f, others) ↦ inr (simp (ne, find_entry) f, (differs, others))
      ]
]

-- What a call gives: an object of the model of that name, or nothing if there is no such model.
abbrev pub Found : Text → Registry → Option Instance × Registry → Type 0
Found name r (found, r') =
    ((i : Instance) × (found ≡ some i) × (r'.instance ≡ some i) × (name_of i.model ≡ name))
    ⊎ ((found ≡ none) × (r' ≡ r) × NoneNamed name registry)

create-OneAlive : (model : Model) (r : Registry) → OneAlive r → OneAlive (create model r).1
unfolding delete
create-OneAlive model r alive = by_instance r.instance r.made r.deleted alive
  where
    by_instance :
        (old : Option Instance) (made : ℕ) (deleted : List ℕ)
        → OneOf made deleted old
        → (made + 1 ≡ suc made) × (delete old deleted ≡ countdown made)
    by_instance none made deleted (m, d) = (omega arith, rw (m, d) refl)
    by_instance (some i) made deleted (m, d) = (omega arith, rw (m, d) refl)

is_current_lem :
    (name : Text) (instance : Option Instance)
    → is_current name instance ≡ true
    → (i : Instance) × (instance ≡ some i) × (name_of i.model ≡ name)
unfolding is_current
is_current_lem name none e = absurd cc
is_current_lem name (some i) e = (i, refl, (eq_text_iff (name_of i.model) name).0 e)

get_instance_current :
    (name : Text) (r : Registry)
    → is_current name r.instance ≡ true
    → get_instance name r ≡ (r.instance, r)
unfolding get_instance
get_instance_current name r e = simp (e, get_instance)

-- what the theorem below says of a result
abbrev pub Result : Text → Registry → Option Instance × Registry → Type 0
Result name r (found, r') =
    Found name r (found, r') × OneAlive r' × (get_instance name r' ≡ (found, r'))

Result_of :
    (name : Text) (r : Registry) (result : Option Instance × Registry)
    → result ≡ (r.instance, r)
    → Found name r (r.instance, r)
    → OneAlive r
    → get_instance name r ≡ (r.instance, r)
    → Result name r result
Result_of name r result e found alive kept = rw e (found, alive, kept)

-- Whatever calls were made before, a call gives an object of the model that has the name, and nothing
-- exactly if no model has it, and then changes nothing; the same call again gives the same object
-- and changes nothing; and of all objects ever made only that which is given last is not deleted,
-- and each other was deleted once.
pub get_instance_lem :
    (name : Text) (r : Registry) → OneAlive r → Result name r (get_instance name r)
unfolding get_instance is_current
get_instance_lem name r alive = elim (Bool-cases (is_current name r.instance)) [
  | inl same ↦
      let (i, e, n) = is_current_lem name r.instance same in
      let kept = get_instance_current name r same in
      Result_of name r (get_instance name r) kept (inl (i, e, e, n)) alive kept
  | inr other ↦ elim (find_entry_lem name registry) [
    | inl (model, f, e) ↦
        let again = (eq_text_iff (name_of model) name).1 e in
        simp (other, f, again, get_instance)
          (inl (_, refl, refl, e), create-OneAlive model r alive, refl)
    | inr (f, unknown) ↦ simp (other, f, get_instance) (inr (refl, refl, unknown), alive, refl)
  ]
]
