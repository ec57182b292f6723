-- ===== src/Run.antt =====
-- How a C function runs here: from a state, to a value and a state or to a stop. Calls that may
-- fail or write return a `Run`, and a sequence of statements is a `do` block.
use ccnx_testrig.Prelude.{◌≡◌, refl, Option, none, some}

-- Why a call does not return: a read through `NULL` or through a pointer to nothing, a read of a
-- field that was never written, a read behind the arguments of a call, a negative length handed over as a size, an array that does not
-- fit its buffer, an `exit`, or a loop that has used up its rounds.
pub data Stop : Type 0 where
  null_pointer uninitialised past_arguments negative_length buffer_overflow : Stop
  exit_success exit_failure : Stop
  out_of_fuel : Stop

pub data Run (S A : Type 0) : Type 0 where
  ok : A → S → Run S A
  stop : Stop → S → Run S A

abbrev pub Cmd : Type 0 → Type 0 → Type 0
Cmd S A = S → Run S A

module _ {S A : Type 0} where
  abbrev pub pure : A → Cmd S A
  pure = ok

  abbrev pub halt : Stop → Cmd S A
  halt = stop

  abbrev pub gets : (S → A) → Cmd S A
  gets f s = ok (f s) s

  -- Reading through a pointer.
  abbrev pub or_stop : Option A → Stop → Cmd S A
  or_stop none why = stop why
  or_stop (some a) why = ok a

abbrev pub modify : {S : Type 0} → (S → S) → Cmd S (Unit {0})
modify f s = ok tt (f s)

module _ {S A B : Type 0} where
  abbrev pub and_then : Run S A → (A → Cmd S B) → Run S B
  and_then (ok a s) k = k a s
  and_then (stop why s) k = stop why s

  infixl 5 ◌>>=◌ ◌>>◌
  abbrev pub ◌>>=◌ : Cmd S A → (A → Cmd S B) → Cmd S B
  ◌>>=◌ m k s = and_then (m s) k

  abbrev pub ◌>>◌ : Cmd S A → Cmd S B → Cmd S B
  m >> n = m >>= λ _. n

-- A command on a part of the state.
module _ {S T A : Type 0} (part : S → T) (put : T → S → S) where
  abbrev pub zoom : Cmd T A → Cmd S A
  zoom m s = elim (m (part s)) [ ok a t ↦ ok a (put t s) | stop why t ↦ stop why (put t s) ]

-- A call that returns came from a first part that returned.
pub and_then-eq-ok :
    {S A B : Type 0} (r : Run S A) (k : A → Cmd S B) {b : B} {t : S}
    → and_then r k ≡ ok b t
    → (a : A) × (s : S) × (r ≡ ok a s) × (k a s ≡ ok b t)
and_then-eq-ok (ok a s) k e = (a, s, refl, e)
and_then-eq-ok (stop why s) k e = cc

pub or_stop-eq-ok :
    {S A : Type 0} (o : Option A) (why : Stop) {s t : S} {a : A}
    → or_stop o why s ≡ ok a t
    → (o ≡ some a) × (s ≡ t)
or_stop-eq-ok none why e = absurd (cc)
or_stop-eq-ok (some b) why e = (cc, cc)

-- To split on how a call ends and keep the equation.
pub data Ending {S A : Type 0} (r : Run S A) : Type 0 where
  returned : (a : A) (s : S) → r ≡ ok a s → Ending r
  stopped : (why : Stop) (s : S) → r ≡ stop why s → Ending r

pub ending : {S A : Type 0} (r : Run S A) → Ending r
ending (ok a s) = returned a s refl
ending (stop why s) = stopped why s refl

-- Total correctness of a call: it returns, and what it leaves satisfies `P`.
pub data Returns {S A : Type 0} (P : A → S → Type 0) : Run S A → Type 0 where
  returns : {a : A} {s : S} → P a s → Returns P (ok a s)

-- A call that stops, for the given reason.
pub data Stops {S A : Type 0} (why : Stop) : Run S A → Type 0 where
  stops : {s : S} → Stops why (stop why s)

pub Returns-eq :
    {S A : Type 0} {P : A → S → Type 0} {r : Run S A}
    → Returns P r
    → (a : A) × (s : S) × (r ≡ ok a s) × P a s
Returns-eq (returns h) = (_, _, refl, h)

-- What follows a stop is not run.
pub Stops-and_then :
    {S A B : Type 0} {why : Stop} {r : Run S A} (k : A → Cmd S B)
    → Stops why r
    → Stops why (and_then r k)
Stops-and_then k stops = stops
