-- ===== src/Suite/Leading.antt =====
-- The functions of the suite, as rules: names, hashes, executing the script, and the exchange that most
-- tests are.
use ccnx_testrig.Prelude.{
  ℕ, ◌+◌, ◌≤◌, ◌≡◌, refl, sym, ap, subst, String, true, List, [], ◌∷◌, append-nil, length, arith,
}
use ccnx_testrig.Run.{Cmd, ◌>>=◌}
use ccnx_testrig.Platform.{Platform}
use ccnx_testrig.Heap.{copy_string}
use ccnx_testrig.Platform.Laws.{BufferLaws, BitVectorLaws, CodecLaws}
use ccnx_testrig.TestResult.{TestResult}
use ccnx_testrig.World.{Rig, World}
use ccnx_testrig.Rig.{get_link_vector, link_id_a}
use ccnx_testrig.Rig.Listed.{starts_over, links_of}
use ccnx_testrig.Channels.{Channels, IsLink}
use ccnx_testrig.Packet.{compute_message_hash}
use ccnx_testrig.Script.{
  Script, create_script, empty_script, add_send_step, add_receive_one_step, add_receive_none_step,
}
use ccnx_testrig.Script.Execute.{execute_script}
use ccnx_testrig.Script.Plan.{Verdict, perform_all, Action, send, receive, Mode, on_one, on_none}
use ccnx_testrig.Script.Plan.Asking.{AllLinks}
use ccnx_testrig.Script.Plan.Placed.{AllPlaced}
use ccnx_testrig.Script.Plan.Executing.{MeetsAll, execute_script-MeetsAll}
use ccnx_testrig.Script.Plan.Built.{
  Trail, begin, actions, sent_now, AllIn-AllPlaced, AllIn-Grows, Grows-append,
}
use ccnx_testrig.Script.Plan.Grown.{Built}
use ccnx_testrig.Script.Plan.Leading.{Leads, send_step-Leads}
use ccnx_testrig.Script.Plan.Listening.{receive_one_step-Leads, receive_none_step-Leads}
use ccnx_testrig.Suite.RandomName.{create_random_name}
use ccnx_testrig.Suite.Drawn.{
  drawn_name, create_random_name-drawn, hash_of, compute_message_hash-hash_of,
}

pub link_a : IsLink 1
link_a = (omega arith, omega arith)

pub link_b : IsLink 2
link_b = (omega arith, omega arith)

pub link_c : IsLink 3
link_c = (omega arith, omega arith)

pub one_link : {i : ℕ} → IsLink i → AllLinks (i ∷ [])
one_link link = (link, tt)

pub two_links : {i j : ℕ} → IsLink i → IsLink j → AllLinks (i ∷ j ∷ [])
two_links link_i link_j = (link_i, (link_j, tt))

module _ ⦃p : Platform⦄ {buffers : BufferLaws p} {laws : BitVectorLaws p} {rig : Rig}
    {channels : Channels rig} where
  pub name-Leads :
      {v : Verdict channels} {t : Trail} {script : Script} {e : channels.Env} {d : ℕ}
      {prefix : String} (k : p.Name → Cmd World TestResult)
      → ((n : ℕ) → length (p.next_bytes n) ≤ 16)
      → Leads buffers laws channels v t script e (d + 1) (k (drawn_name buffers prefix d))
      → Leads buffers laws channels v t script e d (create_random_name prefix >>= k)
  name-Leads {v} {t} {script} {e} {d} {prefix} k fits after = record {
    leads = λ w built.
        let drawn : Built laws channels t script e (d + 1) (record w { draws = w.draws + 1 }) =
          record {
            owner = built.owner;
            injective = built.injective;
            noted = built.noted;
            used = built.used;
            all =
                AllIn-Grows laws built.owner built.owner
                  (Grows-append w (record w { draws = w.draws + 1 }) [] []
                    (sym (append-nil w.vectors)) (sym (append-nil w.steps)))
                  (λ _ _ _. refl) built.noted t built.all;
            steps = built.steps;
            holds = built.holds;
            draws = ap (λ n. n + 1) built.draws;
          } in
        rw (create_random_name-drawn buffers prefix w (fits w.draws)) (
          subst
            (λ n.
              MeetsAll channels v
                (k (drawn_name buffers prefix n) (record w { draws = w.draws + 1 })))
            (sym built.draws) (after.leads (record w { draws = w.draws + 1 }) drawn));
  }

  pub create-Leads :
      {v : Verdict channels} {t : Trail} {script : Script} {e : channels.Env} {d : ℕ}
      (name : String) (k : Script → Cmd World TestResult)
      → Leads buffers laws channels v t script e d (k (empty_script name))
      → Leads buffers laws channels v t script e d (create_script name >>= k)
  unfolding create_script copy_string
  create-Leads name k after = record {
    leads = λ w built. rw (channels.has_spare_bytes name) (after.leads w built);
  }

  pub hash-Leads :
      {v : Verdict channels} {t : Trail} {script : Script} {e : channels.Env} {d : ℕ}
      {packet : p.Packet} (k : p.Buffer → Cmd World TestResult) (codec : CodecLaws p)
      → Leads buffers laws channels v t script e d (k (hash_of buffers codec packet))
      → Leads buffers laws channels v t script e d (compute_message_hash packet >>= k)
  hash-Leads {packet} k codec after = record {
    leads =
        λ w built. rw (compute_message_hash-hash_of buffers codec packet w) (after.leads w built);
  }

  pub executed-Leads :
      {t : Trail} {script : Script} {e : channels.Env} {d : ℕ}
      → Leads buffers laws channels
          (perform_all channels (actions t []) 0 (λ _. []) e)
          t
          script
          e
          d
          (execute_script script rig)
  executed-Leads {t} {script} {e} = record {
    leads = λ w built.
        execute_script-MeetsAll buffers laws channels built.owner built.injective script
          (actions t []) e w
          (subst (AllPlaced laws built.owner w 0 (actions t [])) (sym built.steps)
            (AllIn-AllPlaced laws built.owner w t built.all))
          built.noted built.holds;
  }

abbrev pub exchanging : ⦃p : Platform⦄ → p.Packet → p.Packet → ℕ → ℕ → Mode → List Action
exchanging asked answered there back mode =
    send link_id_a asked
    ∷ receive on_one asked (links_of there [])
    ∷ send back answered
    ∷ receive mode answered (links_of link_id_a [])
    ∷ []

module _ ⦃p : Platform⦄ {buffers : BufferLaws p} {laws : BitVectorLaws p} {rig : Rig}
    {channels : Channels rig} (over : (n : ℕ) → starts_over (p.words_behind n) ≡ true)
    {script : Script} {e : channels.Env} {d : ℕ} (asked answered : p.Packet) {there back : ℕ}
    (link_there : IsLink there) (link_back : IsLink back) where
  pub exchange_one-Leads :
      Leads buffers laws channels
        (perform_all channels (exchanging asked answered there back on_one) 0 (λ _. []) e)
        begin
        script
        e
        d
        (do
          sent ← add_send_step script asked link_id_a
          links ← get_link_vector rig there []
          received ← add_receive_one_step sent.1 sent.0 links
          replied ← add_send_step received.1 answered back
          last_links ← get_link_vector rig link_id_a []
          last ← add_receive_one_step replied.1 replied.0 last_links
          execute_script last.1 rig)
  exchange_one-Leads = send_step-Leads _ link_a λ at0.
      receive_one_step-Leads [] _ sent_now (one_link link_there) over λ at1.
        send_step-Leads _ link_back
          λ at2. receive_one_step-Leads [] _ sent_now (one_link link_a) over λ at3. executed-Leads

  pub exchange_none-Leads :
      Leads buffers laws channels
        (perform_all channels (exchanging asked answered there back on_none) 0 (λ _. []) e)
        begin
        script
        e
        d
        (do
          sent ← add_send_step script asked link_id_a
          links ← get_link_vector rig there []
          received ← add_receive_one_step sent.1 sent.0 links
          replied ← add_send_step received.1 answered back
          last_links ← get_link_vector rig link_id_a []
          last ← add_receive_none_step replied.1 replied.0 last_links
          execute_script last.1 rig)
  exchange_none-Leads = send_step-Leads _ link_a λ at0.
      receive_one_step-Leads [] _ sent_now (one_link link_there) over λ at1.
        send_step-Leads _ link_back
          λ at2. receive_none_step-Leads [] _ sent_now (one_link link_a) over λ at3. executed-Leads
