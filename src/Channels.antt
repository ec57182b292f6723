-- ===== src/Channels.antt =====
-- The links of a rig as channels: what executing a script needs of them. Scripts are described
-- against this interface, and links over UDP implement it.
pub mod Datagrams
pub mod Udp
use ccnx_testrig.Prelude.{
  subst, ◌==◌, Bool-cases, inl, inr, arith, true, false, ℕ, ℤ, pos, ◌≤◌, ◌≡◌, Option, none, some,
}
use ccnx_testrig.Run.{ok}
use ccnx_testrig.Platform.{Platform}
use ccnx_testrig.Heap.{HasSpareBytes}
use ccnx_testrig.Reporter.{Console}
use ccnx_testrig.Platform.Laws.{concat}
use ccnx_testrig.Link.{Net, receive_with_timeout, send_buffer}
use ccnx_testrig.World.{Rig}
use ccnx_testrig.Rig.{get_link_by_id}

-- The number of link A, B or C.
abbrev pub IsLink : ℕ → Type 0
IsLink i = (1 ≤ i) × (i ≤ 3)

-- A property of the three links that holds of each.
pub each_link : (A : ℕ → Type 0) → A 1 → A 2 → A 3 → (i : ℕ) → IsLink i → A i
each_link A a b c i link = elim (Bool-cases (i == 1)) [
  | inl one ↦ subst A (ground arith) a
  | inr above ↦ elim (Bool-cases (i == 2)) [
    | inl two ↦ subst A (ground arith) b
    | inr last ↦ subst A (ground arith) c
  ]
]

module _ ⦃p : Platform⦄ {Env : Type 0} (Holds : Env → Net → Type 0) (rig : Rig) where
  -- A receive on a link returns, with the given answer: nothing, or a buffer that the codec turns
  -- into the given message.
  pub data Takes (i : ℕ) (n : Net) : Option p.Packet × Env → Type 0 where
    silence :
        {e : Env} (n' : Net)
        → receive_with_timeout (get_link_by_id rig i) (pos 1000) n ≡ ok none n'
        → Holds e n'
        → Takes i n (none, e)
    arrival :
        {e : Env} {message : p.Packet} (b : p.Buffer) (n' : Net)
        → receive_with_timeout (get_link_by_id rig i) (pos 1000) n ≡ ok (some b) n'
        → p.create_from_wire_format b ≡ some message
        → Holds e n'
        → Takes i n (some message, e)

-- What surrounds the rig, as far as the scripts see it: `take` is what is received on a link and
-- what is left, `put` is what surrounds it after a packet was sent on a link. What is received is
-- nothing or a message that the codec reads, writing to the console does not concern the channels,
-- and the heap has a byte to spare behind each block.
pub record Channels ⦃p : Platform⦄ (rig : Rig) : Type 1 where
  pub Env : Type 0
  pub Holds : Env → Net → Type 0
  pub take : ℕ → Env → Option p.Packet × Env
  pub put : ℕ → p.Packet → Env → Env
  pub has_spare_bytes : HasSpareBytes
  pub prints :
      (e : Env) (n : Net) (console : Console) → Holds e n → Holds e (record n { console = console })
  pub takes : (i : ℕ) (e : Env) (n : Net) → IsLink i → Holds e n → Takes Holds rig i n (take i e)
  pub puts :
      (i : ℕ) (packet : p.Packet) (e : Env) (n : Net) (b : p.Buffer)
      → IsLink i
      → Holds e n
      → p.overlay b ≡ concat (p.dictionary_encode packet)
      → (val : ℤ) × (n' : Net) × (send_buffer (get_link_by_id rig i) b n ≡ ok val n')
        × Holds (put i packet e) n'
