-- ===== src/Script/Plan/Grown.antt =====
-- Adding a step to a script under construction.
use ccnx_testrig.Prelude.{
  ℕ, ◌+◌, ◌≤◌, ◌<◌, ◌≡◌, ◌≢◌, refl, sym, ◌∙◌, ap, subst, none, some, Option-cases, List, [], ◌∷◌,
  ◌++◌, length, get_elem?, get_elem?-lt, get_elem?-append_length, get_elem?-append_next, ◌⊎◌, ◌==◌,
  Bool-cases, inl, inr, arith,
}
use ccnx_testrig.Platform.{Platform}
use ccnx_testrig.Platform.Laws.{BitVectorLaws}
use ccnx_testrig.World.{StepPointer, VectorPointer, Step, World, Rig}
use ccnx_testrig.Channels.{Channels}
use ccnx_testrig.Script.{Script}
use ccnx_testrig.Script.Building.{Adds}
use ccnx_testrig.Script.Plan.{Action}
use ccnx_testrig.Script.Plan.Placed.{Owner, Does, IsInjective, Noted}
use ccnx_testrig.Script.Plan.Built.{
  extend, Grows, Grows-append, HasBits-Grows, Trail, next, count, pointers, pointers-append, AllIn,
  AllIn-Grows,
}

module _ ⦃p : Platform⦄ (laws : BitVectorLaws p) {rig : Rig} (channels : Channels rig) where
  -- The script's steps stand for the trail, no vector of senders is shared or notes anything yet,
  -- and `d` draws of random bytes were made.
  pub record Built (t : Trail) (script : Script) (e : channels.Env) (d : ℕ) (w : World)
      : Type 0 where
    pub owner : Owner
    pub injective : IsInjective laws owner
    pub noted : Noted laws owner (λ _. []) w
    pub used : (x : VectorPointer) (j : ℕ) → owner x ≡ some j → j < count t
    pub all : AllIn laws owner t w
    pub steps : script.steps ≡ pointers t []
    pub holds : channels.Holds e w.net
    pub draws : w.draws ≡ d

  module _ {t : Trail} {script : Script} {e : channels.Env} {d : ℕ} {w : World}
      (built : Built t script e d w) where
    open built use {owner}

    owner_inside : (x : VectorPointer) (j : ℕ) → owner x ≡ some j → x < length w.vectors
    owner_inside x j owned =
        let ((v, has, _), _) = built.noted x j owned in get_elem?-lt w.vectors x has

    -- A vector that is not there yet is written for no action.
    pub unowned_behind : (x : VectorPointer) → length w.vectors ≤ x → owner x ≡ none
    unowned_behind x behind = elim (Option-cases (owner x)) [
      | inl free ↦ free
      | inr (j, owned) ↦ absurd (let inside = owner_inside x j owned in omega arith)
    ]

    -- The owner once a step was added whose senders go to the first new vector.
    abbrev pub owner_next : Owner
    owner_next = extend owner (length w.vectors) (count t)

    pub owner_next_apart : (x : VectorPointer) → x ≢ length w.vectors → owner_next x ≡ owner x
    owner_next_apart x apart = elim (Bool-cases (x == length w.vectors)) [
      | inl same ↦ absurd (apart (ground arith))
      | inr other ↦ rw other refl
    ]

    owner_next_cases :
        (x : VectorPointer) (j : ℕ)
        → owner_next x ≡ some j
        → ((x ≡ length w.vectors) × (j ≡ count t)) ⊎ (owner x ≡ some j)
    owner_next_cases x j owned = elim (Bool-cases (x == length w.vectors)) [
      | inl same ↦ inl (ground arith)
      | inr other ↦ inr (let owned' = rw other at owned in owned')
    ]

    owner_next_injective : IsInjective laws owner_next
    owner_next_injective x y j owned_x owned_y = elim (owner_next_cases x j owned_x) [
      | inl (x_new, j_new) ↦ elim (owner_next_cases y j owned_y) [
        | inl (y_new, _) ↦ x_new ∙ sym y_new
        | inr y_old ↦ absurd (let below = built.used y j y_old in omega arith)
      ]
      | inr x_old ↦ elim (owner_next_cases y j owned_y) [
        | inl (_, j_new) ↦ absurd (let below = built.used x j x_old in omega arith)
        | inr y_old ↦ built.injective x y j x_old y_old
      ]
    ]

    owner_next_used : (x : VectorPointer) (j : ℕ) → owner_next x ≡ some j → j < count t + 1
    owner_next_used x j owned = elim (owner_next_cases x j owned) [
      | inl (_, last) ↦ omega arith
      | inr old ↦ let below = built.used x j old in omega arith
    ]

    pub owner_next_agrees :
        (x : VectorPointer) (v : p.BitVector)
        → get_elem? w.vectors x ≡ some v
        → owner_next x ≡ owner x
    owner_next_agrees x v has =
        owner_next_apart x λ same. (let inside = get_elem?-lt w.vectors x has in omega arith)

    -- Adding a step that does an action adds the action to the trail.
    pub Built-Adds :
        (a : Action) (new : Step) (more : List p.BitVector) (added : StepPointer × Script)
        (w' : World)
        → Adds script w more new added w'
        → (Grows w w' → Does laws owner_next a new w')
        → Built (next t a added.0) added.1 e d w'
    Built-Adds a new more added w' adds does =
        let grows : Grows w w' =
          Grows-append w w' (p.create_vector ∷ more) (new ∷ []) adds.new_vectors adds.in_world in
        let fresh : get_elem? w'.vectors (length w.vectors) ≡ some p.create_vector =
          ap (λ vs. get_elem? vs (length w.vectors)) adds.new_vectors
          ∙ get_elem?-append_next w.vectors p.create_vector more in
        let found : get_elem? w'.steps added.0 ≡ some new =
          rw (adds.pointer, adds.in_world) (get_elem?-append_length w.steps new) in
        record {
          owner = owner_next;
          injective = owner_next_injective;
          noted = λ x j owned. elim (owner_next_cases x j owned) [
            | inl (here, _) ↦
                ((p.create_vector, ap (get_elem? w'.vectors) here ∙ fresh, laws.bits-create), tt)
            | inr old ↦ (
              HasBits-Grows laws owner owner_next grows owner_next_agrees built.noted x []
                  (built.noted x j old).0,
              tt,
            )
          ];
          used = owner_next_used;
          all = (
            AllIn-Grows laws owner owner_next grows owner_next_agrees built.noted t built.all,
            record {
              step = new;
              found = found;
              owned = rw adds.received (owner_next_new);
              does = does grows;
            },
          );
          steps =
              ap (λ (s : Script). s.steps) adds.in_script
              ∙ ap (λ (l : List StepPointer). l ++ length w.steps ∷ []) built.steps
              ∙ pointers-append t [] (length w.steps ∷ [])
              ∙ ap (λ at. pointers t (at ∷ [])) (sym adds.pointer);
          holds = subst (channels.Holds e) (sym adds.same_net) built.holds;
          draws = adds.same_draws ∙ built.draws;
        }
      where
        owner_next_new : owner_next (length w.vectors) ≡ some (count t)
        owner_next_new = ground arith
