-- ===== src/Main/OverUdp.antt =====
-- The links that `main` opens over UDP, as links of a rig.
use ccnx_testrig.Prelude.{
  ℕ, ℤ, ◌+◌, ◌≡◌, refl, ◌∙◌, ap, String, Option, some, List, [], ◌∷◌, ◌++◌, length, get_elem?, suc,
  ◌==◌, if◌then◌else◌, arith,
}
use ccnx_testrig.Run.{Returns, Returns-eq, returns}
use ccnx_testrig.Platform.{Platform}
use ccnx_testrig.Link.{Link, udp}
use ccnx_testrig.Link.Ready.{IsReady, Listens, udp_transport}
use ccnx_testrig.World.{Options, World}
use ccnx_testrig.Rig.{create_rig, get_link_by_id}
use ccnx_testrig.Channels.{each_link}
use ccnx_testrig.Channels.Udp.{UdpAt, AllUdp}
use ccnx_testrig.Main.{next_port, rig_with, open_rig}
use ccnx_testrig.Main.Links.{open_links-IsReady}

get_elem?-append_right :
    {A : Type 0} (xs ys : List A) (k : ℕ) → get_elem? (xs ++ ys) (length xs + k) ≡ get_elem? ys k
get_elem?-append_right [] ys k = let same : 0 + k ≡ k = omega arith in ap (get_elem? ys) same
get_elem?-append_right (x ∷ xs) ys k =
    let same : length (x ∷ xs) + k ≡ suc (length xs + k) = omega arith in
    ap (get_elem? (x ∷ (xs ++ ys))) same ∙ get_elem?-append_right xs ys k

module _ ⦃p : Platform⦄ where
  UdpAt-IsReady :
      (links : List Link) (at : Option ℕ) (pointer : ℕ) (port : ℕ) (link : Link)
      → at ≡ some pointer
      → get_elem? links pointer ≡ some link
      → IsReady udp port link
      → UdpAt links at link.socket
  UdpAt-IsReady links at pointer port link points stored ready = record {
    pointer = pointer;
    link = link;
    points = points;
    stored = stored;
    receives = ready.receives;
    sends = ready.sends;
    on_socket = refl;
  }

  abbrev pub socket_of : Link → Link → Link → ℕ → ℤ
  socket_of link_a link_b link_c i =
      if i == 1 then link_a.socket else if i == 2 then link_b.socket else link_c.socket

  -- With UDP and an address, `main` opens three links that listen, one after the other, on the
  -- given port and the two ports after it, and the rig that it goes on with has its links A, B and C
  -- over UDP, in this order, on the sockets that are bound to these ports.
  pub open_rig-AllUdp :
      (options : Options) (address : String) (w : World)
      → options.link_type ≡ some udp
      → options.address ≡ some address
      → Returns
          (λ rig w'.
            (link_a : Link) × (link_b : Link) × (link_c : Link) × (os1 : p.Os) × (os2 : p.Os)
            × Listens udp options.port w.net.os link_a os1
            × Listens udp (next_port options.port) os1 link_b os2
            × Listens udp (next_port (next_port options.port)) os2 link_c w'.net.os
            × AllUdp (socket_of link_a link_b link_c) rig w'.net.links)
          (open_rig options w)
  unfolding open_rig get_link_by_id create_rig
  open_rig-AllUdp options address w typed addressed =
      let (
        (a, b, c),
        w',
        run,
        (
          link_a, link_b, link_c, os1, os2, links, at_a, at_b, at_c, ready_a, ready_b, ready_c,
          listens_a, listens_b, listens_c,
        ),
      ) =
        Returns-eq (open_links-IsReady options udp address typed addressed udp_transport w) in
      let before = w.net.links in
      let socket = socket_of link_a link_b link_c in
      let stored = λ (k : ℕ).
        ap (λ ls. get_elem? ls (length before + k)) links
        ∙ get_elem?-append_right before (link_a ∷ link_b ∷ link_c ∷ []) k in
      rw run (
        returns (
          link_a,
          link_b,
          link_c,
          os1,
          os2,
          listens_a,
          listens_b,
          listens_c,
          each_link (λ i. UdpAt w'.net.links (get_link_by_id (rig_with options a b c) i) (socket i))
              (UdpAt-IsReady w'.net.links a (length before + 0) _ link_a
                (at_a ∙ ap some (omega arith)) (stored 0) ready_a)
              (UdpAt-IsReady w'.net.links b (length before + 1) _ link_b at_b (stored 1) ready_b)
              (UdpAt-IsReady w'.net.links c (length before + 2) _ link_c at_c (stored 2) ready_c),
        ))
