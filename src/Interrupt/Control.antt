-- ===== src/Interrupt/Control.antt =====
-- `JobControl` of sdk/typescript/interrupt.ts over a sequence of polls: the first reason stays.
use capnpc_wasm.Common.{
  Bool-cases, ltb, sym, ap, ◌∙◌, ℕ, ◌≤◌, ◌<◌, ◌*◌, suc, ◌≡◌, ◌↔◌, String, ◌⊎◌, refl, true, false,
  ◌&&◌, List, [], ◌∷◌, Option, none, some, arith, ◌==◌, if◌then◌else◌, Option-cases, inl, inr,
}
use capnpc_wasm.Common.Number.{Number, nan, infinite, finite}
use capnpc_wasm.Common.Result.{Error, Result, ok, err, type_error_named, ok_inj}
use capnpc_wasm.Interrupt.{
  Reason, timeout_error, abort_error, Observation, JobControl, is_some, signal_of, passed,
  cancelled, NumberValue, number, no_number, check_timeout,
}

-- The control after some polls.
unfoldable pub polls : List Observation → JobControl → JobControl
polls [] control = control
polls (o ∷ os) control = polls os (cancelled o control).1

-- Why one poll by itself would stop the job: its cell before its signal before its deadline.
unfoldable pub cause : JobControl → Observation → Option Reason
cause control o =
    if control.has_cell && o.cell_value == control.token
    then some abort_error
    else if is_some o.aborted
    then signal_of o.aborted
    else if passed control.deadline o.now
    then some timeout_error
    else none

abbrev pub or_else : Option Reason → Option Reason → Option Reason
or_else none other = other
or_else (some reason) other = some reason

unfoldable pub first_cause : JobControl → List Observation → Option Reason
unfolding cause
first_cause control [] = none
first_cause control (o ∷ os) = or_else (cause control o) (first_cause control os)

stopped-polls :
    (os : List Observation) (control : JobControl)
    → control.stopped ≡ true
    → polls os control ≡ control
unfolding polls cancelled
stopped-polls [] control h = refl
stopped-polls (o ∷ os) control h = simp h (stopped-polls os control h)

abbrev pub stop : Option Reason → JobControl → JobControl
stop none control = control
stop (some reason) control = record control { stopped = true; reason = some reason }

pub cancelled-cause :
    (o : Observation) (control : JobControl)
    → control.stopped ≡ false
    → cancelled o control ≡ (is_some (cause control o), stop (cause control o) control)
unfolding cancelled cause
cancelled-cause o control h = ground (arith)

-- A job's polls stop it at the first observation that has a cause, for that cause, and no later
-- poll changes the reason.
pub polls-first_cause :
    (os : List Observation) (control : JobControl)
    → control.stopped ≡ false
    → polls os control ≡ stop (first_cause control os) control
unfolding polls first_cause
polls-first_cause [] control h = refl
polls-first_cause (o ∷ os) control h = simp cancelled-cause (elim (Option-cases (cause control o)) [
  | inl e ↦ simp e (polls-first_cause os control h)
  | inr (reason, e) ↦ simp e (stopped-polls os (stop (some reason) control) refl)
])

-- A finite number above 0 and at most 2147483647.
abbrev pub IsTimeout : Number → Type 0
IsTimeout x = (n d : ℕ) × (x ≡ finite false n d) × (0 < n) × (n ≤ 2147483647 * suc d)

finite_inj : (n d m b : ℕ) → finite false n d ≡ finite false m b → (n ≡ m) × (d ≡ b)
finite_inj n d m b e = (cc, cc)

err_inj : (e f : Error) → ◌≡◌ {A = Result Number} (err e) (err f) → e ≡ f
err_inj e f h = cc

-- What a check comes to, for a value that is such a number or not.
abbrev Checked : NumberValue → String → Result Number → Type 0
Checked value name result =
    ((x : Number) × (value ≡ number x) × IsTimeout x × (result ≡ ok x))
    ⊎ (((x : Number) → value ≡ number x → ¬ IsTimeout x)
        × (result ≡ err (type_error_named "must be positive and at most 2147483647" name)))

number_inj : (x y : Number) → number x ≡ number y → x ≡ y
number_inj x y e = cc

check_timeout-Checked :
    (value : NumberValue) (name : String) → Checked value name (check_timeout value name)
unfolding check_timeout
check_timeout-Checked no_number name = inr (λ x e t. cc, refl)
check_timeout-Checked (number nan) name = inr (λ x e t. cc (number_inj nan x e, t.2), refl)
check_timeout-Checked (number (infinite negative)) name =
    inr (λ x e t. cc (number_inj (infinite negative) x e, t.2), refl)
check_timeout-Checked (number (finite true n d)) name =
    inr (λ x e t. cc (number_inj (finite true n d) x e, t.2), refl)
check_timeout-Checked (number (finite false n d)) name = elim (Bool-cases (n == 0)) [
  | inl e ↦ rw (e) (
      inr (
        λ x f t.
            let (k, l) = finite_inj n d t.0 t.1 (number_inj (finite false n d) x f ∙ t.2) in
            let zero_ : n ≡ 0 = ground arith in omega (arith, zero_, k, t.3),
        refl,
      ))
  | inr e ↦ elim (Bool-cases (ltb (2147483647 * suc d) n)) [
    | inl f ↦
        rw (e, f)
          (inr (
            λ x g t.
                let (k, l) = finite_inj n d t.0 t.1 (number_inj (finite false n d) x g ∙ t.2) in
                let high : 2147483647 * suc d < n = ground arith in omega (arith, high, k, l, t.4),
            refl,
          ))
    | inr f ↦
        rw (e, f) (inl (finite false n d, refl, (n, d, refl, ground arith, ground arith), refl))
  ]
]

-- `checkTimeout` returns a number exactly where the value is that number, finite, above 0 and at most
-- 2147483647, and it throws an error exactly where the value is no such number; the error is the
-- TypeError with the name of the option.
pub check_timeout_iff :
    (value : NumberValue) (name : String) (y : Number) (e : Error)
    → ((check_timeout value name ≡ ok y) ↔ ((value ≡ number y) × IsTimeout y))
      × ((check_timeout value name ≡ err e) ↔ (
          ((x : Number) → value ≡ number x → ¬ IsTimeout x)
          × (e ≡ type_error_named "must be positive and at most 2147483647" name)))
check_timeout_iff value name y e = elim (check_timeout-Checked value name) [
  | inl (x, f, t, g) ↦ (
    (
      λ h. let k : y ≡ x = ok_inj (sym h ∙ g) in rw k (f, t),
      λ h. g ∙ ap ok (number_inj x y (sym f ∙ h.0)),
    ),
    (λ h. absurd (cc (h, g)), λ h. absurd (h.0 x f t)),
  )
  | inr (never, g) ↦ (
    (λ h. absurd (cc (h, g)), λ h. absurd (never y h.0 h.1)),
    (λ h. (never, err_inj e _ (sym h ∙ g)), λ h. g ∙ ap err (sym h.1)),
  )
]
