-- ===== src/Script/Plan/Placed.antt =====
-- Where the steps of a plan stand in the world: which step is at which pointer, and which vectors
-- they share. An owner says of a vector by which action's step it is written, if by any.
use ccnx_testrig.Prelude.{
  ℕ, ◌+◌, ◌≡◌, ◌≢◌, sym, ◌∙◌, ap, subst, Option, none, some, List, [], ◌∷◌, get_elem?, ◌==◌,
  Bool-cases, inl, inr, arith, ltb,
}
use ccnx_testrig.Platform.{Platform}
use ccnx_testrig.Platform.Laws.{BitVectorLaws, add_bit}
use ccnx_testrig.World.{
  StepPointer, VectorPointer, Step, World, Rig, ExecuteFunction, execute_send, execute_receive_all,
  execute_receive_one, execute_receive_none,
}
use ccnx_testrig.Channels.{Channels, IsLink}
use ccnx_testrig.Script.Execute.Frame.{Frame}
use ccnx_testrig.Script.Plan.{
  Mode, on_all, on_one, on_none, Action, send, respond, receive, Notes, note, senders, ask,
}
use ccnx_testrig.Script.Plan.Asking.{HasBits, AllLinks, RefersTo}

abbrev pub Owner : Type 0
Owner = VectorPointer → Option ℕ

abbrev pub function_of : Mode → ExecuteFunction
function_of on_all = execute_receive_all
function_of on_one = execute_receive_one
function_of on_none = execute_receive_none

module _ ⦃p : Platform⦄ (laws : BitVectorLaws p) (owner : Owner) where
  -- A step does what the action says: it sends on the one link of a vector of its own, or on the
  -- links of the vector that another action writes, or it receives on a vector of its own.
  abbrev pub Does : Action → Step → World → Type 0
  Does (send i packet) step w =
      (step.execute ≡ some execute_send)
      × (step.packet ≡ some packet)
      × (owner step.link_vector ≡ none)
      × HasBits laws w step.link_vector (i ∷ [])
      × IsLink i
  Does (respond k packet) step w =
      (step.execute ≡ some execute_send)
      × (step.packet ≡ some packet)
      × (owner step.link_vector ≡ some k)
  Does (receive mode sent links) step w =
      (step.execute ≡ some (function_of mode))
      × RefersTo step sent w
      × (owner step.link_vector ≡ none)
      × HasBits laws w step.link_vector links
      × AllLinks links

  -- The step at a pointer does the action with the index `j`, and notes for it.
  pub record Placed (w : World) (j : ℕ) (a : Action) (at : StepPointer) : Type 0 where
    pub step : Step
    pub found : get_elem? w.steps at ≡ some step
    pub owned : owner step.received_link_vector ≡ some j
    pub does : Does a step w

  -- The steps of a script do the actions of a plan from the `j`-th on.
  pub data AllPlaced (w : World) : ℕ → List Action → List StepPointer → Type 0 where
    none_placed : {j : ℕ} → AllPlaced w j [] []
    placed :
        {j : ℕ} {a : Action} {plan : List Action} {at : StepPointer} {steps : List StepPointer}
        → Placed w j a at
        → AllPlaced w (j + 1) plan steps
        → AllPlaced w j (a ∷ plan) (at ∷ steps)

  -- No two vectors are written for the same action.
  abbrev pub IsInjective : Type 0
  IsInjective = (x y : VectorPointer) (j : ℕ) → owner x ≡ some j → owner y ≡ some j → x ≡ y

  -- The vectors hold what is noted, which are links.
  abbrev pub Noted : Notes → World → Type 0
  Noted notes w =
      (x : VectorPointer) (j : ℕ)
      → owner x ≡ some j
      → HasBits laws w x (notes j) × AllLinks (notes j)

  module _ {own : VectorPointer} {j : ℕ} (owned : owner own ≡ some j) {w w' : World}
      (frame : Frame own w w') where
    HasBits-Frame :
        (at : VectorPointer) (links : List ℕ)
        → at ≢ own
        → HasBits laws w at links
        → HasBits laws w' at links
    HasBits-Frame at links apart (v, has, same) = (v, frame.same_vectors at apart ∙ has, same)

    pub unowned_apart : (at : VectorPointer) → owner at ≡ none → at ≢ own
    unowned_apart at free same = let owned_at = ap owner same in cc

    RefersTo-Frame : (step : Step) (sent : p.Packet) → RefersTo step sent w → RefersTo step sent w'
    RefersTo-Frame step sent (at, referenced, refers, found, packet) =
        (at, referenced, refers, ap (λ steps. get_elem? steps at) frame.same_steps ∙ found, packet)

    pub Does-Frame : (a : Action) (step : Step) → Does a step w → Does a step w'
    Does-Frame (send i packet) step (executes, has_packet, free, bits, link) = (
      executes,
      has_packet,
      free,
      HasBits-Frame step.link_vector (i ∷ []) (unowned_apart step.link_vector free) bits,
      link,
    )
    Does-Frame (respond k packet) step does = does
    Does-Frame (receive mode sent links) step (executes, refers, free, bits, all) = (
      executes,
      RefersTo-Frame step sent refers,
      free,
      HasBits-Frame step.link_vector links (unowned_apart step.link_vector free) bits,
      all,
    )

    -- What a step writes leaves the plan's steps where they are.
    pub AllPlaced-Frame :
        {i : ℕ} {plan : List Action} {steps : List StepPointer}
        → AllPlaced w i plan steps
        → AllPlaced w' i plan steps
    AllPlaced-Frame none_placed = none_placed
    AllPlaced-Frame (placed {a} {at} h rest) =
        placed
          (record {
            step = h.step;
            found = ap (λ steps. get_elem? steps at) frame.same_steps ∙ h.found;
            owned = h.owned;
            does = Does-Frame a h.step h.does;
          })
          (AllPlaced-Frame rest)

    -- What a step notes is noted, and what the others have noted stays.
    pub Noted-note :
        (notes : Notes) (links : List ℕ)
        → IsInjective
        → Noted notes w
        → HasBits laws w' own links
        → AllLinks links
        → Noted (note j links notes) w'
    Noted-note notes links injective noted bits all x k owned_x = elim (Bool-cases (k == j)) [
      | inl same ↦
          let same_index : k ≡ j = ground arith in
          let here : x ≡ own = injective x own j (owned_x ∙ ap some same_index) owned in
          rw same (subst (λ y. HasBits laws w' y links) (sym here) bits, all)
      | inr other ↦
          let apart : x ≢ own = λ here.
            (let index : some k ≡ some j = sym owned_x ∙ ap owner here ∙ owned in ground arith) in
          let (before, links_k) = noted x k owned_x in
          rw other (HasBits-Frame x (notes k) apart before, links_k)
    ]

pub AllLinks-add_bit :
    (i : ℕ) (links : List ℕ) → IsLink i → AllLinks links → AllLinks (add_bit i links)
unfolding add_bit
AllLinks-add_bit i [] link all = (link, tt)
AllLinks-add_bit i (n ∷ links) link all = elim (Bool-cases (ltb i n)) [
  | inl below ↦ rw below (link, all)
  | inr over ↦ elim (Bool-cases (i == n)) [
    | inl same ↦ rw (over, same) all
    | inr other ↦ rw (over, other) (all.0, AllLinks-add_bit i links link all.1)
  ]
]

module _ ⦃p : Platform⦄ {rig : Rig} (channels : Channels rig) where
  -- Only links are senders.
  pub AllLinks-senders :
      (is links : List ℕ) (e : channels.Env)
      → AllLinks is
      → AllLinks links
      → AllLinks (senders links (ask channels is e).0)
  AllLinks-senders [] links e all all_links = all_links
  AllLinks-senders (i ∷ is) links e all all_links =
      by_answer (channels.take i e).0
        (λ more h. AllLinks-senders is more (channels.take i e).1 all.1 h)
    where
      by_answer :
          (answer : Option p.Packet)
          → ((more : List ℕ)
              → AllLinks more
              → AllLinks (senders more (ask channels is (channels.take i e).1).0))
          → AllLinks (senders links ((i, answer) ∷ (ask channels is (channels.take i e).1).0))
      by_answer none rest = rest links all_links
      by_answer (some message) rest =
          rest (add_bit i links) (AllLinks-add_bit i links all.0 all_links)
