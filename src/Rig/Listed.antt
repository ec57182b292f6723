-- ===== src/Rig/Listed.antt =====
-- The vectors of links that `ccnxTestrig_GetLinkVector` builds, as lists, where what `va_arg` reads
-- behind the arguments ends them.
use ccnx_testrig.Prelude.{
  ℕ, ◌≡◌, refl, ◌∙◌, ap, Bool, true, false, ◌&&◌, not, some, List, [], ◌∷◌, ◌++◌, length, get_elem?,
  set, set-set, set-append_length, get_elem?-set_self, get_elem?-lt, get_elem?-append_length, ltb,
  arith,
}
use ccnx_testrig.Run.{ok, Returns, returns}
use ccnx_testrig.Platform.{Platform}
use ccnx_testrig.Platform.Laws.{BitVectorLaws, add_bit}
use ccnx_testrig.World.{Rig, World, VectorPointer}
use ccnx_testrig.Rig.{link_id_null, set_links, get_link_vector}
use ccnx_testrig.Rig.Vectors.{set_links-over, set_links-next}

-- The first word is CCNxTestrigLinkID_NULL or more, so that the loop ends there.
abbrev pub starts_over : List ℕ → Bool
starts_over [] = false
starts_over (word ∷ words) = not (ltb word link_id_null)

abbrev pub below_null : List ℕ → Bool
below_null [] = true
below_null (id ∷ ids) = ltb id link_id_null && below_null ids

abbrev pub add_all : List ℕ → List ℕ → List ℕ
add_all [] bs = bs
add_all (id ∷ ids) bs = add_all ids (add_bit id bs)

-- The links that a call asks for.
abbrev pub links_of : ℕ → List ℕ → List ℕ
links_of id passed = add_all (id ∷ passed) (add_bit id [])

module _ ⦃p : Platform⦄ (laws : BitVectorLaws p) where
  set_links-add_all :
      (at : VectorPointer) (id : ℕ) (ids behind : List ℕ) (w : World) (v : p.BitVector)
      → get_elem? w.vectors at ≡ some v
      → below_null (id ∷ ids) ≡ true
      → starts_over behind ≡ true
      → (v' : p.BitVector) × (set_links at id (ids ++ behind) w
          ≡ ok tt (record w { vectors = set w.vectors at v' }))
        × (laws.bits v' ≡ add_all (id ∷ ids) (laws.bits v))
  set_links-add_all at id [] [] w v has below over = absurd (cc)
  set_links-add_all at id [] (word ∷ behind) w v has below over =
      let v1 = p.set_bit v id in
      let w1 = record w { vectors = set w.vectors at v1 } in
      (
        v1,
        set_links-next laws at id word behind w v has (ground arith)
            ∙ set_links-over laws at word behind w1 v1
                (get_elem?-set_self w.vectors at v1 (get_elem?-lt w.vectors at has)) (ground arith)
            ∙ ap (λ vs. ok tt (record w { vectors = vs })) (set-set w.vectors at v1 v1),
        laws.bits-set v id (ground arith),
      )
  set_links-add_all at id (id' ∷ ids) behind w v has below over =
      let v1 = p.set_bit v id in
      let w1 = record w { vectors = set w.vectors at v1 } in
      let (v2, run, bits) =
        set_links-add_all at id' ids behind w1 v1
          (get_elem?-set_self w.vectors at v1 (get_elem?-lt w.vectors at has)) (ground arith)
          over in
      (
        v2,
        set_links-next laws at id id' (ids ++ behind) w v has (ground arith)
            ∙ run
            ∙ ap (λ vs. ok tt (record w { vectors = vs })) (set-set w.vectors at v1 v2),
        bits ∙ ap (add_all (id' ∷ ids)) (laws.bits-set v id (ground arith)),
      )

  -- If all arguments are numbers of links and the word behind them is not, building a vector of
  -- links returns a pointer to one new vector, whose bits are the arguments in ascending order.
  pub get_link_vector-links_of :
      (rig : Rig) (id : ℕ) (passed : List ℕ) (w : World)
      → below_null (id ∷ passed) ≡ true
      → starts_over (p.words_behind (length w.vectors)) ≡ true
      → Returns
          (λ at w'.
            (v : p.BitVector) × (at ≡ length w.vectors)
            × (w' ≡ record w { vectors = w.vectors ++ v ∷ [] })
            × (laws.bits v ≡ links_of id passed))
          (get_link_vector rig id passed w)
  unfolding get_link_vector
  get_link_vector-links_of rig id passed w below over =
      let at = length w.vectors in
      let v1 = p.set_bit p.create_vector id in
      let w1 = record w { vectors = w.vectors ++ v1 ∷ [] } in
      let (v, run, bits) =
        set_links-add_all at id passed (p.words_behind at) w1 v1
          (get_elem?-append_length w.vectors v1) below over in
      rw (get_elem?-append_length w.vectors p.create_vector) (
        rw (set-append_length w.vectors p.create_vector v1) (
          rw (run, set-append_length w.vectors v1 v)
            (returns (
              v,
              refl,
              refl,
              bits
                  ∙ ap (add_all (id ∷ passed)) (
                      laws.bits-set p.create_vector id (ground arith)
                      ∙ ap (add_bit id) laws.bits-create),
            ))))
