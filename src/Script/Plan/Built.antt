-- ===== src/Script/Plan/Built.antt =====
-- Scripts under construction: a trail of the actions for which the steps that were added stand, and
-- what holds of the world on the way.
use ccnx_testrig.Prelude.{
  ℕ, ◌+◌, ◌≡◌, refl, ◌∙◌, ap, some, List, [], ◌∷◌, ◌++◌, get_elem?, get_elem?-lt,
  get_elem?-append_left, ◌==◌, if◌then◌else◌,
}
use ccnx_testrig.Platform.{Platform}
use ccnx_testrig.Platform.Laws.{BitVectorLaws}
use ccnx_testrig.World.{StepPointer, VectorPointer, Step, World}
use ccnx_testrig.Script.Plan.{Action, send, respond, receive}
use ccnx_testrig.Script.Plan.Asking.{HasBits}
use ccnx_testrig.Script.Plan.Placed.{Owner, Does, Placed, AllPlaced, none_placed, placed, Noted}

module _ ⦃p : Platform⦄ where
  -- The actions, and the steps that stand for them, in the order in which they were added.
  pub data Trail : Type 0 where
    begin : Trail
    next : Trail → Action → StepPointer → Trail

  abbrev pub count : Trail → ℕ
  count begin = 0
  count (next t a at) = count t + 1

  -- The trail's actions before the given ones.
  abbrev pub actions : Trail → List Action → List Action
  actions begin plan = plan
  actions (next t a at) plan = actions t (a ∷ plan)

  abbrev pub pointers : Trail → List StepPointer → List StepPointer
  pointers begin steps = steps
  pointers (next t a at) steps = pointers t (at ∷ steps)

  pub pointers-append :
      (t : Trail) (steps more : List StepPointer)
      → pointers t steps ++ more ≡ pointers t (steps ++ more)
  pointers-append begin steps more = refl
  pointers-append (next t a at) steps more = pointers-append t (at ∷ steps) more

  -- The step at a pointer sends the packet.
  pub data SentIn : StepPointer → p.Packet → Trail → Type 0 where
    sent_now :
        {at : StepPointer} {packet : p.Packet} {i : ℕ} {t : Trail}
        → SentIn at packet (next t (send i packet) at)
    responded_now :
        {at : StepPointer} {packet : p.Packet} {k : ℕ} {t : Trail}
        → SentIn at packet (next t (respond k packet) at)
    sent_before :
        {at at' : StepPointer} {packet : p.Packet} {a : Action} {t : Trail}
        → SentIn at packet t
        → SentIn at packet (next t a at')

  -- The step at a pointer stands for the action with the index.
  pub data NotedIn : StepPointer → ℕ → Trail → Type 0 where
    noted_now : {at : StepPointer} {a : Action} {t : Trail} → NotedIn at (count t) (next t a at)
    noted_before :
        {at at' : StepPointer} {k : ℕ} {a : Action} {t : Trail}
        → NotedIn at k t
        → NotedIn at k (next t a at')

-- The owner, with a new vector that is written for the action with the index `n`.
abbrev pub extend : Owner → VectorPointer → ℕ → Owner
extend owner new n x = if x == new then some n else owner x

module _ ⦃p : Platform⦄ where
  -- Steps and vectors have only been added behind those there were.
  pub record Grows (w w' : World) : Type 0 where
    pub vectors_stay :
        (x : VectorPointer) (v : p.BitVector)
        → get_elem? w.vectors x ≡ some v
        → get_elem? w'.vectors x ≡ some v
    pub steps_stay :
        (at : StepPointer) (step : Step)
        → get_elem? w.steps at ≡ some step
        → get_elem? w'.steps at ≡ some step

  get_elem?-grown :
      {A : Type 0} (xs ys zs : List A) (i : ℕ) (x : A)
      → zs ≡ xs ++ ys
      → get_elem? xs i ≡ some x
      → get_elem? zs i ≡ some x
  get_elem?-grown xs ys zs i x added has =
      ap (λ l. get_elem? l i) added ∙ get_elem?-append_left xs ys i (get_elem?-lt xs i has) ∙ has

  pub Grows-append :
      (w w' : World) (vectors : List p.BitVector) (steps : List Step)
      → w'.vectors ≡ w.vectors ++ vectors
      → w'.steps ≡ w.steps ++ steps
      → Grows w w'
  Grows-append w w' vectors steps more_vectors more_steps = record {
    vectors_stay = λ x v has. get_elem?-grown w.vectors vectors w'.vectors x v more_vectors has;
    steps_stay = λ at step has. get_elem?-grown w.steps steps w'.steps at step more_steps has;
  }

module _ ⦃p : Platform⦄ (laws : BitVectorLaws p) (owner owner' : Owner) {w w' : World}
    (grows : Grows w w')
    (agree : (x : VectorPointer) (v : p.BitVector)
      → get_elem? w.vectors x ≡ some v
      → owner' x ≡ owner x)
    (noted : Noted laws owner (λ _. []) w) where
  pub HasBits-Grows :
      (x : VectorPointer) (links : List ℕ) → HasBits laws w x links → HasBits laws w' x links
  HasBits-Grows x links (v, has, same) = (v, grows.vectors_stay x v has, same)

  owned_stays : (x : VectorPointer) (j : ℕ) → owner x ≡ some j → owner' x ≡ some j
  owned_stays x j owned = let ((v, has, _), _) = noted x j owned in agree x v has ∙ owned

  Does-Grows : (a : Action) (step : Step) → Does laws owner a step w → Does laws owner' a step w'
  Does-Grows (send i packet) step (executes, has_packet, free, (v, has, same), link) = (
    executes,
    has_packet,
    agree step.link_vector v has ∙ free,
    (v, grows.vectors_stay step.link_vector v has, same),
    link,
  )
  Does-Grows (respond k packet) step (executes, has_packet, shared) =
      (executes, has_packet, owned_stays step.link_vector k shared)
  Does-Grows (receive mode sent links) step
        (executes, (at, referenced, refers, found, packet), free, (v, has, same), all) =
      (
        executes,
        (at, referenced, refers, grows.steps_stay at referenced found, packet),
        agree step.link_vector v has ∙ free,
        (v, grows.vectors_stay step.link_vector v has, same),
        all,
      )

  pub Placed-Grows :
      (j : ℕ) (a : Action) (at : StepPointer)
      → Placed laws owner w j a at
      → Placed laws owner' w' j a at
  Placed-Grows j a at h = record {
    step = h.step;
    found = grows.steps_stay at h.step h.found;
    owned = owned_stays h.step.received_link_vector j h.owned;
    does = Does-Grows a h.step h.does;
  }

module _ ⦃p : Platform⦄ (laws : BitVectorLaws p) where
  abbrev pub AllIn : Owner → Trail → World → Type 0
  AllIn owner begin w = Unit
  AllIn owner (next t a at) w = AllIn owner t w × Placed laws owner w (count t) a at

  module _ (owner : Owner) (w : World) where
    AllPlaced-before :
        (t : Trail) {plan : List Action} {steps : List StepPointer}
        → AllIn owner t w
        → AllPlaced laws owner w (count t) plan steps
        → AllPlaced laws owner w 0 (actions t plan) (pointers t steps)
    AllPlaced-before begin all rest = rest
    AllPlaced-before (next t a at) (all, last) rest = AllPlaced-before t all (placed last rest)

    pub AllIn-AllPlaced :
        (t : Trail) → AllIn owner t w → AllPlaced laws owner w 0 (actions t []) (pointers t [])
    AllIn-AllPlaced t all = AllPlaced-before t all none_placed

    -- What is added as sent is a step with the packet.
    pub AllIn-SentIn :
        {at : StepPointer} {sent : p.Packet} {t : Trail}
        → SentIn at sent t
        → AllIn owner t w
        → (step : Step) × (get_elem? w.steps at ≡ some step) × (step.packet ≡ some sent)
    AllIn-SentIn sent_now (all, last) = (last.step, last.found, last.does.1)
    AllIn-SentIn responded_now (all, last) = (last.step, last.found, last.does.1)
    AllIn-SentIn (sent_before h) (all, last) = AllIn-SentIn h all

    -- What is added with an index is a step that notes its links for it.
    pub AllIn-NotedIn :
        {at : StepPointer} {k : ℕ} {t : Trail}
        → NotedIn at k t
        → AllIn owner t w
        → (step : Step) × (get_elem? w.steps at ≡ some step)
          × (owner step.received_link_vector ≡ some k)
    AllIn-NotedIn noted_now (all, last) = (last.step, last.found, last.owned)
    AllIn-NotedIn (noted_before h) (all, last) = AllIn-NotedIn h all

  module _ (owner owner' : Owner) {w w' : World} (grows : Grows w w')
      (agree : (x : VectorPointer) (v : p.BitVector)
        → get_elem? w.vectors x ≡ some v
        → owner' x ≡ owner x)
      (noted : Noted laws owner (λ _. []) w) where
    pub AllIn-Grows : (t : Trail) → AllIn owner t w → AllIn owner' t w'
    AllIn-Grows begin all = tt
    AllIn-Grows (next t a at) (all, last) =
        (AllIn-Grows t all, Placed-Grows laws owner owner' grows agree noted (count t) a at last)
