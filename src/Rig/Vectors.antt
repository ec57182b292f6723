-- ===== src/Rig/Vectors.antt =====
-- Vectors of links: `ccnxTestrig_GetLinkVector` of src/ccnxTestrig.c.
use ccnx_testrig.Prelude.{
  ℕ, ◌^◌, ◌<◌, ◌≡◌, refl, ◌∙◌, ap, Bool, true, false, ◌||◌, not, some, List, [], ◌∷◌, ◌++◌, length,
  get_elem?, set, set-set, set-get_elem?, set-append_length, get_elem?-set_self, get_elem?-lt,
  get_elem?-append_length, ltb, ◌==◌, if◌then◌else◌, arith, Bool-cases, inl, inr,
}
use ccnx_testrig.Run.{ok, Returns, returns}
use ccnx_testrig.Platform.{Platform}
use ccnx_testrig.Platform.Laws.{BitVectorLaws, add_bit}
use ccnx_testrig.World.{Rig, World, VectorPointer}
use ccnx_testrig.Rig.{link_id_null, set_links, get_link_vector}

abbrev pub elem : ℕ → List ℕ → Bool
elem n [] = false
elem n (m ∷ ms) = (n == m) || elem n ms

-- The numbers up to the first that is CCNxTestrigLinkID_NULL or more.
abbrev pub before_null : List ℕ → List ℕ
before_null [] = []
before_null (id ∷ ids) = if ltb id link_id_null then id ∷ before_null ids else []

-- Some number is CCNxTestrigLinkID_NULL or more.
abbrev pub has_null : List ℕ → Bool
has_null [] = false
has_null (id ∷ ids) = not (ltb id link_id_null) || has_null ids

elem-add_bit : (n m : ℕ) (bs : List ℕ) → elem n (add_bit m bs) ≡ ((n == m) || elem n bs)
unfolding add_bit
elem-add_bit n m [] = refl
elem-add_bit n m (b ∷ bs) = ground (arith, elem-add_bit n m bs)

module _ ⦃p : Platform⦄ (laws : BitVectorLaws p) where
  -- `v'` holds the numbers of the list and the bits of `v`.
  abbrev pub Adds : List ℕ → p.BitVector → p.BitVector → Type 0
  Adds ids v v' = (n : ℕ) → elem n (laws.bits v') ≡ (elem n ids || elem n (laws.bits v))

  set_bit-Adds : (v : p.BitVector) (id : ℕ) → id < 2 ^ 31 → Adds (id ∷ []) v (p.set_bit v id)
  set_bit-Adds v id small n =
      ap (elem n) (laws.bits-set v id small) ∙ elem-add_bit n id (laws.bits v) ∙ ground arith

  pub set_links-over :
      (at : VectorPointer) (id : ℕ) (words : List ℕ) (w : World) (v : p.BitVector)
      → get_elem? w.vectors at ≡ some v
      → ltb id link_id_null ≡ false
      → set_links at id words w ≡ ok tt (record w { vectors = set w.vectors at v })
  unfolding set_links
  set_links-over at id [] w v has over = rw (over, set-get_elem? w.vectors at has) refl
  set_links-over at id (word ∷ words) w v has over = rw (over, set-get_elem? w.vectors at has) refl

  pub set_links-next :
      (at : VectorPointer) (id word : ℕ) (words : List ℕ) (w : World) (v : p.BitVector)
      → get_elem? w.vectors at ≡ some v
      → ltb id link_id_null ≡ true
      → set_links at id (word ∷ words) w
        ≡ set_links at word words (record w { vectors = set w.vectors at (p.set_bit v id) })
  unfolding set_links
  set_links-next at id word words w v has link = rw (link, has) refl

  set_links-Adds :
      (at : VectorPointer) (id : ℕ) (words : List ℕ) (w : World) (v : p.BitVector)
      → get_elem? w.vectors at ≡ some v
      → has_null (id ∷ words) ≡ true
      → (v' : p.BitVector) × (set_links at id words w
          ≡ ok tt (record w { vectors = set w.vectors at v' }))
        × Adds (before_null (id ∷ words)) v v'
  set_links-Adds at id [] w v has ends = elim (Bool-cases (ltb id link_id_null)) [
    | inl link ↦ absurd (ground arith)
    | inr over ↦ (v, set_links-over at id [] w v has over, λ n. rw over refl)
  ]
  set_links-Adds at id (word ∷ words) w v has ends = elim (Bool-cases (ltb id link_id_null)) [
    | inl link ↦
        let v1 = p.set_bit v id in
        let w1 = record w { vectors = set w.vectors at v1 } in
        let (v2, run, adds) =
          set_links-Adds at word words w1 v1
            (get_elem?-set_self w.vectors at v1 (get_elem?-lt w.vectors at has)) (ground arith) in
        (
          v2,
          set_links-next at id word words w v has link
              ∙ (run ∙ ap (λ vs. ok tt (record w { vectors = vs })) (set-set w.vectors at v1 v2)),
          λ n. rw link (ground (arith, adds n, set_bit-Adds v id (ground arith) n)),
        )
    | inr over ↦ (v, set_links-over at id (word ∷ words) w v has over, λ n. rw over refl)
  ]

  -- If the first argument is below 2^31, and it or some word behind it is CCNxTestrigLinkID_NULL or
  -- more, building a vector of links returns a pointer to one new vector, which holds exactly the first argument and
  -- the words from it up to that one: those that were passed and, where none of these ends them,
  -- those that lie behind them.
  pub get_link_vector-Adds :
      (rig : Rig) (link_id : ℕ) (passed : List ℕ) (w : World)
      → link_id < 2 ^ 31
      → let words = passed ++ p.words_behind (length w.vectors) in
        has_null (link_id ∷ words) ≡ true
        → Returns
            (λ at w'.
              (v : p.BitVector) × (at ≡ length w.vectors)
              × (w' ≡ record w { vectors = w.vectors ++ v ∷ [] })
              × ((n : ℕ) → elem n (laws.bits v) ≡ elem n (link_id ∷ before_null (link_id ∷ words))))
            (get_link_vector rig link_id passed w)
  unfolding get_link_vector
  get_link_vector-Adds rig link_id passed w small ends =
      let at = length w.vectors in
      let words = passed ++ p.words_behind at in
      let v1 = p.set_bit p.create_vector link_id in
      let w1 = record w { vectors = w.vectors ++ v1 ∷ [] } in
      let (v, run, adds) =
        set_links-Adds at link_id words w1 v1 (get_elem?-append_length w.vectors v1) ends in
      rw (get_elem?-append_length w.vectors p.create_vector) (
        rw (set-append_length w.vectors p.create_vector v1) (
          rw (run, set-append_length w.vectors v1 v)
            (returns (
              v,
              refl,
              refl,
              λ n. ground (
                arith,
                adds n,
                set_bit-Adds p.create_vector link_id small n,
                ap (elem n) laws.bits-create,
              ),
            ))))
