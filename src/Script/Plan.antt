-- ===== src/Script/Plan.antt =====
-- What a script means, without its objects: a plan is a list of actions on the links, and it is
-- performed on what surrounds the rig. There are no pointers, vectors, buffers or results in it.
pub mod Asking
pub mod Silence
pub mod Rounds
pub mod Receiving
pub mod Placed
pub mod Performing
pub mod Executing
pub mod Built
pub mod Grown
pub mod Answerable
pub mod Leading
pub mod Listening
use ccnx_testrig.Prelude.{
  ℕ, ◌+◌, ◌%◌, ◌^◌, Bool, true, false, not, ◌&&◌, ◌||◌, ◌==◌, Option, none, some, List, [], ◌∷◌,
  if◌then◌else◌,
}
use ccnx_testrig.Platform.{Platform}
use ccnx_testrig.Platform.Laws.{add_bit}
use ccnx_testrig.Packet.Pair.{same_name, same_key_id, same_hash}
use ccnx_testrig.World.{Rig}
use ccnx_testrig.Channels.{Channels}
use ccnx_testrig.Script.Execute.{bool_eq}

-- What a receive step asks for: a packet on all of its links, on one of them at least, or on none.
pub data Mode : Type 0 where
  on_all on_one on_none : Mode

module _ ⦃p : Platform⦄ where
  -- `respond` names the action whose senders it answers by its index; the packet of `receive` is
  -- the one that was sent, against which what comes is compared.
  pub data Action : Type 0 where
    send : ℕ → p.Packet → Action
    respond : ℕ → p.Packet → Action
    receive : Mode → p.Packet → List ℕ → Action

  abbrev same_fields : p.Packet → p.Packet → Bool
  same_fields sent received =
      (p.get_hop_limit sent == (p.get_hop_limit received + 1) % 2 ^ 32)
      && ((p.get_lifetime sent == p.get_lifetime received)
          && (same_name sent received && (same_key_id sent received && same_hash sent received)))

  -- A message is what a forwarder makes of the packet that was sent: of the same type, and an
  -- Interest with the same fields but for the hop limit.
  unfoldable pub agrees : p.Packet → p.Packet → Bool
  agrees sent message =
      bool_eq (p.meta_is_interest message) (p.is_interest sent)
      && (bool_eq (p.meta_is_content_object message) (p.is_content_object sent)
          && (bool_eq (p.meta_is_manifest message) (p.is_manifest sent)
              && (if p.is_interest sent
                  then same_fields sent (p.meta_get_interest message)
                  else p.is_content_object sent || p.is_manifest sent)))

  abbrev pub Answers : Type 0
  Answers = List (ℕ × Option p.Packet)

  abbrev pub all_agree : p.Packet → Answers → Bool
  all_agree sent [] = true
  all_agree sent ((i, none) ∷ answers) = false
  all_agree sent ((i, some message) ∷ answers) = agrees sent message && all_agree sent answers

  abbrev pub none_disagrees : p.Packet → Answers → Bool
  none_disagrees sent [] = true
  none_disagrees sent ((i, none) ∷ answers) = none_disagrees sent answers
  none_disagrees sent ((i, some message) ∷ answers) =
      agrees sent message && none_disagrees sent answers

  abbrev pub some_came : Answers → Bool
  some_came [] = false
  some_came ((i, none) ∷ answers) = some_came answers
  some_came ((i, some message) ∷ answers) = true

  unfoldable pub accepts : Mode → p.Packet → Answers → Bool
  accepts on_all sent answers = all_agree sent answers
  accepts on_one sent answers = some_came answers && none_disagrees sent answers
  accepts on_none sent answers = not (some_came answers)

  -- The links on which something came, added to those that there are.
  abbrev pub senders : List ℕ → Answers → List ℕ
  senders links [] = links
  senders links ((i, none) ∷ answers) = senders links answers
  senders links ((i, some message) ∷ answers) = senders (add_bit i links) answers

  -- The links on which each action has received.
  abbrev pub Notes : Type 0
  Notes = ℕ → List ℕ

  abbrev pub note : ℕ → List ℕ → Notes → Notes
  note j links notes k = if k == j then links else notes k

module _ ⦃p : Platform⦄ {rig : Rig} (channels : Channels rig) where
  -- Each link is asked once, in order.
  abbrev pub ask : List ℕ → channels.Env → Answers × channels.Env
  ask [] e = ([], e)
  ask (i ∷ is) e =
      let (answer, e1) = channels.take i e in
      let (answers, e2) = ask is e1 in ((i, answer) ∷ answers, e2)

  -- How an action ends: with the senders that it notes, in a failure, or in a crash.
  pub data Outcome : Type 0 where
    goes_on : List ℕ → channels.Env → Outcome
    fails crashes : Outcome

  -- A receive adds the senders to those in `noted`, and fails unless the answers are accepted.
  unfoldable pub receive_on : Mode → p.Packet → List ℕ → List ℕ → channels.Env → Outcome
  receive_on mode sent links noted e =
      let (answers, e') = ask links e in
      if accepts mode sent answers then goes_on (senders noted answers) e' else fails

  -- The action with the index `j`.
  unfoldable pub perform : Action → ℕ → Notes → channels.Env → Outcome
  perform (send i packet) j notes e = goes_on (notes j) (channels.put i packet e)
  perform (respond k packet) j notes e = elim (notes k) [
    | [] ↦ crashes
    | i ∷ is ↦ goes_on (notes j) (channels.put i packet e)
  ]
  perform (receive mode sent links) j notes e = receive_on mode sent links (notes j) e

  pub data Verdict : Type 0 where
    passed : channels.Env → Verdict
    failed crashed : Verdict

  -- The actions from the `j`-th on, up to the first that fails.
  unfoldable pub perform_all : List Action → ℕ → Notes → channels.Env → Verdict
  perform_all [] j notes e = passed e
  perform_all (a ∷ plan) j notes e = elim (perform a j notes e) [
    | goes_on links e' ↦ perform_all plan (j + 1) (note j links notes) e'
    | fails ↦ failed
    | crashes ↦ crashed
  ]
