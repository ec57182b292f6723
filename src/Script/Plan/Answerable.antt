-- ===== src/Script/Plan/Answerable.antt =====
-- Plans that cannot crash: each respond action answers a receive that passes only if something came.
use ccnx_testrig.Prelude.{
  ℕ, ◌+◌, ◌≡◌, ◌≢◌, refl, subst, none, some, List, [], ◌∷◌, Bool, true, ◌&&◌, ◌==◌, Bool-cases, inl,
  inr, arith, ltb,
}
use ccnx_testrig.Platform.{Platform}
use ccnx_testrig.Platform.Laws.{add_bit}
use ccnx_testrig.World.{Rig}
use ccnx_testrig.Rig.Vectors.{elem}
use ccnx_testrig.Channels.{Channels}
use ccnx_testrig.Script.Plan.{
  Mode, on_all, on_one, on_none, Action, send, respond, receive, Answers, Notes, note, some_came,
  accepts, senders, ask, Outcome, goes_on, fails, crashes, receive_on, perform, Verdict, failed,
  crashed, perform_all,
}

module _ ⦃p : Platform⦄ where
  -- From the `j`-th action on, where the actions in `heard` have received something.
  abbrev pub is_answerable : List Action → ℕ → List ℕ → Bool
  is_answerable [] j heard = true
  is_answerable (send i packet ∷ plan) j heard = is_answerable plan (j + 1) heard
  is_answerable (respond k packet ∷ plan) j heard = elem k heard && is_answerable plan (j + 1) heard
  is_answerable (receive on_one sent links ∷ plan) j heard = is_answerable plan (j + 1) (j ∷ heard)
  is_answerable (receive mode sent links ∷ plan) j heard = is_answerable plan (j + 1) heard

add_bit-some : (i : ℕ) (links : List ℕ) → add_bit i links ≢ []
unfolding add_bit
add_bit-some i [] e = absurd (cc)
add_bit-some i (n ∷ links) e = elim (Bool-cases (ltb i n)) [
  | inl below ↦ absurd (let e' = rw below at e in cc)
  | inr over ↦ elim (Bool-cases (i == n)) [
    | inl same ↦ absurd (let e' = rw (over, same) at e in cc)
    | inr other ↦ absurd (let e' = rw (over, other) at e in cc)
  ]
]

module _ ⦃p : Platform⦄ where
  -- Senders are never taken away.
  senders-some : (links : List ℕ) (answers : Answers) → links ≢ [] → senders links answers ≢ []
  senders-some links [] some_link = some_link
  senders-some links ((i, none) ∷ answers) some_link = senders-some links answers some_link
  senders-some links ((i, some message) ∷ answers) some_link =
      senders-some (add_bit i links) answers (add_bit-some i links)

  senders-came :
      (links : List ℕ) (answers : Answers) → some_came answers ≡ true → senders links answers ≢ []
  senders-came links [] came = absurd (cc)
  senders-came links ((i, none) ∷ answers) came = senders-came links answers came
  senders-came links ((i, some message) ∷ answers) came =
      senders-some (add_bit i links) answers (add_bit-some i links)

  -- The actions in `heard` have noted senders.
  abbrev pub Heard : List ℕ → Notes → Type 0
  Heard heard notes = (k : ℕ) → elem k heard ≡ true → notes k ≢ []

  module _ (heard : List ℕ) (notes : Notes) (all : Heard heard notes) (j : ℕ) (links : List ℕ) where
    -- What an action notes takes nothing away, if it only adds to its own.
    Heard-note : (notes j ≢ [] → links ≢ []) → Heard heard (note j links notes)
    Heard-note more k is_heard = elim (Bool-cases (k == j)) [
      | inl same ↦ rw same (
          more (let here : k ≡ j = ground arith in subst (λ i. notes i ≢ []) here (all k is_heard)))
      | inr other ↦ rw other (all k is_heard)
    ]

    Heard-more : links ≢ [] → Heard (j ∷ heard) (note j links notes)
    Heard-more some_link k is_heard = elim (Bool-cases (k == j)) [
      | inl same ↦ rw same some_link
      | inr other ↦ rw other (all k (ground arith))
    ]

module _ ⦃p : Platform⦄ {rig : Rig} (channels : Channels rig) where
  -- The rest of the plan, after an action.
  abbrev rest_of : Outcome channels → List Action → ℕ → Notes → Verdict channels
  rest_of o plan j notes = elim o [
    | goes_on links e ↦ perform_all channels plan (j + 1) (note j links notes) e
    | fails ↦ failed
    | crashes ↦ crashed
  ]

  -- A receive goes on with more senders, or fails.
  receive_on-rest :
      (mode : Mode) (sent : p.Packet) (links noted : List ℕ) (e : channels.Env) (plan : List Action)
      (j : ℕ) (notes : Notes)
      → (accepts mode sent (ask channels links e).0 ≡ true
          → perform_all channels plan
              (j + 1)
              (note j (senders noted (ask channels links e).0) notes)
              (ask channels links e).1
            ≢ crashed)
      → rest_of (receive_on channels mode sent links noted e) plan j notes ≢ crashed
  unfolding receive_on
  receive_on-rest mode sent links noted e plan j notes later =
      elim (Bool-cases (accepts mode sent (ask channels links e).0)) [
        | inl yes_accepted ↦ rw yes_accepted (later yes_accepted)
        | inr refused ↦ rw refused (λ crash. absurd (cc))
      ]

  perform_all-respond :
      (packet : p.Packet) (plan : List Action) (j : ℕ) (notes : Notes) (e : channels.Env)
      (from : List ℕ)
      → from ≢ []
      → ((e' : channels.Env)
          → perform_all channels plan (j + 1) (note j (notes j) notes) e' ≢ crashed)
      → rest_of
          (elim from as (λ _. Outcome channels) [
            | [] ↦ crashes
            | i ∷ is ↦ goes_on (notes j) (channels.put i packet e)
          ])
          plan
          j
          notes
        ≢ crashed
  perform_all-respond packet plan j notes e [] some_link later = absurd (some_link refl)
  perform_all-respond packet plan j notes e (i ∷ is) some_link later =
      later (channels.put i packet e)

  -- An answerable plan does not crash.
  pub perform_all-answerable :
      (plan : List Action) (j : ℕ) (heard : List ℕ) (notes : Notes) (e : channels.Env)
      → is_answerable plan j heard ≡ true
      → Heard heard notes
      → perform_all channels plan j notes e ≢ crashed
  unfolding perform_all perform accepts
  perform_all-answerable [] j heard notes e answerable all = λ crash. absurd (cc)
  perform_all-answerable (send i packet ∷ plan) j heard notes e answerable all =
      perform_all-answerable plan (j + 1) heard (note j (notes j) notes) (channels.put i packet e)
        answerable (Heard-note heard notes all j (notes j) (λ h. h))
  perform_all-answerable (respond k packet ∷ plan) j heard notes e answerable all =
      perform_all-respond packet plan j notes e (notes k) (all k (ground arith)) λ e'.
        perform_all-answerable plan (j + 1) heard (note j (notes j) notes) e' (ground arith)
          (Heard-note heard notes all j (notes j) (λ h. h))
  perform_all-answerable (receive on_one sent links ∷ plan) j heard notes e answerable all =
      receive_on-rest on_one sent links (notes j) e plan j notes λ yes_accepted.
        perform_all-answerable plan (j + 1) (j ∷ heard)
          (note j (senders (notes j) (ask channels links e).0) notes) (ask channels links e).1
          answerable
          (Heard-more heard notes all j (senders (notes j) (ask channels links e).0)
            (senders-came (notes j) (ask channels links e).0 (ground arith)))
  perform_all-answerable (receive on_all sent links ∷ plan) j heard notes e answerable all =
      receive_on-rest on_all sent links (notes j) e plan j notes λ yes_accepted.
        perform_all-answerable plan (j + 1) heard
          (note j (senders (notes j) (ask channels links e).0) notes) (ask channels links e).1
          answerable
          (Heard-note heard notes all j (senders (notes j) (ask channels links e).0)
            (senders-some (notes j) (ask channels links e).0))
  perform_all-answerable (receive on_none sent links ∷ plan) j heard notes e answerable all =
      receive_on-rest on_none sent links (notes j) e plan j notes λ yes_accepted.
        perform_all-answerable plan (j + 1) heard
          (note j (senders (notes j) (ask channels links e).0) notes) (ask channels links e).1
          answerable
          (Heard-note heard notes all j (senders (notes j) (ask channels links e).0)
            (senders-some (notes j) (ask channels links e).0))
