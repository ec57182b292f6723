-- ===== src/Examples/Channels.antt =====
-- The three links of the machine as channels, on each of which messages are queued.
use ccnx_testrig.Prelude.{
  ℕ, ℤ, ◌+◌, ◌≤◌, length, ◌≡◌, refl, sym, subst, Option, none, some, List, [], ◌∷◌, ◌==◌,
  if◌then◌else◌, arith,
}
use ccnx_testrig.Run.{ok}
use ccnx_testrig.Reporter.{Console}
use ccnx_testrig.Link.{
  Net, send_buffer, udp_send, receive_with_timeout, udp_receive, received_buffer,
}
use ccnx_testrig.Rig.{get_link_by_id}
use ccnx_testrig.Channels.{Channels, IsLink, each_link, Takes, silence, arrival}
use ccnx_testrig.Examples.Machine.{Message, desk, waiting}
use ccnx_testrig.Examples.Links.{desk_rig, three_links}

-- What is queued on links A, B and C.
abbrev pub Queued : Type 0
Queued = List Message × List Message × List Message

abbrev pub on_wire : Message → List ℕ
on_wire m = m.kind ∷ m.hop_limit ∷ m.lifetime ∷ m.message_name ∷ []

abbrev pub all_on_wire : List Message → List (List ℕ)
all_on_wire [] = []
all_on_wire (m ∷ ms) = on_wire m ∷ all_on_wire ms

abbrev pub desk_after : Queued → Console → Net ⦃p = desk⦄
desk_after (xs, bs, cs) console = record {
  os = waiting (all_on_wire xs) ∷ waiting (all_on_wire bs) ∷ waiting (all_on_wire cs) ∷ [];
  console = console;
  links = three_links;
}

abbrev pub queued : Queued → ℕ
queued (xs, bs, cs) = length xs + length bs + length cs

-- At most nine messages are queued.
abbrev pub IsDesk : Queued → Net ⦃p = desk⦄ → Type 0
IsDesk e n = (n ≡ desk_after e n.console) × (queued e ≤ 9)

abbrev pub first_of : List Message → Option Message × List Message
first_of [] = (none, [])
first_of (m ∷ ms) = (some m, ms)

abbrev pub take_from : ℕ → Queued → Option Message × Queued
take_from i (xs, bs, cs) =
    if i == 1
    then (let (m, rest) = first_of xs in (m, (rest, bs, cs)))
    else if i == 2
    then (let (m, rest) = first_of bs in (m, (xs, rest, cs)))
    else (let (m, rest) = first_of cs in (m, (xs, bs, rest)))

abbrev pub received_from : Message → desk.Buffer
received_from m = record { room = 4; bytes = on_wire m }

pub Takes-a :
    (e : Queued) (console : Console)
    → queued e ≤ 9
    → Takes IsDesk desk_rig 1 (desk_after e console) (take_from 1 e)
unfolding receive_with_timeout udp_receive received_buffer get_link_by_id
Takes-a ([], bs, cs) console few = silence (desk_after ([], bs, cs) console) refl (refl, few)
Takes-a (m ∷ xs, bs, cs) console few =
    arrival (received_from m) (desk_after (xs, bs, cs) console) refl refl (refl, omega arith)

pub Takes-b :
    (e : Queued) (console : Console)
    → queued e ≤ 9
    → Takes IsDesk desk_rig 2 (desk_after e console) (take_from 2 e)
unfolding receive_with_timeout udp_receive received_buffer get_link_by_id
Takes-b (xs, [], cs) console few = silence (desk_after (xs, [], cs) console) refl (refl, few)
Takes-b (xs, m ∷ bs, cs) console few =
    arrival (received_from m) (desk_after (xs, bs, cs) console) refl refl (refl, omega arith)

pub Takes-c :
    (e : Queued) (console : Console)
    → queued e ≤ 9
    → Takes IsDesk desk_rig 3 (desk_after e console) (take_from 3 e)
unfolding receive_with_timeout udp_receive received_buffer get_link_by_id
Takes-c (xs, bs, []) console few = silence (desk_after (xs, bs, []) console) refl (refl, few)
Takes-c (xs, bs, m ∷ cs) console few =
    arrival (received_from m) (desk_after (xs, bs, cs) console) refl refl (refl, omega arith)

pub take_desk :
    (i : ℕ) (e : Queued) (n : Net ⦃p = desk⦄)
    → IsLink i
    → IsDesk e n
    → Takes IsDesk desk_rig i n (take_from i e)
take_desk i e n link holds =
    each_link (λ i. Takes IsDesk desk_rig i n (take_from i e))
      (subst (λ n'. Takes IsDesk desk_rig 1 n' (take_from 1 e)) (sym holds.0)
        (Takes-a e n.console holds.1))
      (subst (λ n'. Takes IsDesk desk_rig 2 n' (take_from 2 e)) (sym holds.0)
        (Takes-b e n.console holds.1))
      (subst (λ n'. Takes IsDesk desk_rig 3 n' (take_from 3 e)) (sym holds.0)
        (Takes-c e n.console holds.1))
      i link

abbrev pub Sends : ℕ → desk.Buffer → Queued → Net ⦃p = desk⦄ → Type 0
Sends i b e n =
    (val : ℤ) × (n' : Net ⦃p = desk⦄) × (send_buffer (get_link_by_id desk_rig i) b n ≡ ok val n')
    × IsDesk e n'

pub Sends-a :
    (b : desk.Buffer) (e : Queued) (console : Console)
    → queued e ≤ 9
    → Sends 1 b e (desk_after e console)
unfolding send_buffer udp_send get_link_by_id
Sends-a b e console few = (_, _, refl, (refl, few))

pub Sends-b :
    (b : desk.Buffer) (e : Queued) (console : Console)
    → queued e ≤ 9
    → Sends 2 b e (desk_after e console)
unfolding send_buffer udp_send get_link_by_id
Sends-b b e console few = (_, _, refl, (refl, few))

pub Sends-c :
    (b : desk.Buffer) (e : Queued) (console : Console)
    → queued e ≤ 9
    → Sends 3 b e (desk_after e console)
unfolding send_buffer udp_send get_link_by_id
Sends-c b e console few = (_, _, refl, (refl, few))

abbrev pub desk_channels : Channels desk_rig
desk_channels = record {
  Env = Queued;
  Holds = IsDesk;
  take = take_from;
  put = λ i packet e. e;
  has_spare_bytes = λ s. refl;
  prints = λ e n console (same, few). (
    subst (λ n1. record n { console = console } ≡ record n1 { console = console }) same refl,
    few,
  );
  takes = take_desk;
  puts = λ i packet e n b link holds written.
      each_link (λ i. Sends i b e n)
        (subst (Sends 1 b e) (sym holds.0) (Sends-a b e n.console holds.1))
        (subst (Sends 2 b e) (sym holds.0) (Sends-b b e n.console holds.1))
        (subst (Sends 3 b e) (sym holds.0) (Sends-c b e n.console holds.1)) i link;
}
