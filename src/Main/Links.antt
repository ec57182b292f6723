-- ===== src/Main/Links.antt =====
-- The links that `main` opens.
use ccnx_testrig.Prelude.{
  ℕ, ◌+◌, ◌≡◌, refl, ◌∙◌, ap, String, str_append, some, [], ◌∷◌, ◌++◌, length, length-append,
  append_assoc,
}
use ccnx_testrig.Run.{ok, Returns, returns, Returns-eq, zoom}
use ccnx_testrig.Platform.{Platform}
use ccnx_testrig.Reporter.{Stream, Line, stdout, numbered}
use ccnx_testrig.Link.{LinkType, Link}
use ccnx_testrig.Link.Ready.{Transport, IsReady, Listens, listen_link-Opened}
use ccnx_testrig.World.{Options, World}
use ccnx_testrig.Main.{int_of, next_port, open_link, open_links}

module _ ⦃p : Platform⦄ (options : Options) (t : LinkType) (address : String)
    (typed : options.link_type ≡ some t) (addressed : options.address ≡ some address)
    (transport : Transport t) where
  open_link-IsReady :
      (said : String) (port : ℕ) (w : World)
      → (link : Link) × (w' : World) × (open_link said options port w
          ≡ ok (some (length w.net.links)) w')
        × (w'.net.links ≡ w.net.links ++ link ∷ [])
        × IsReady t port link
        × Listens t port w.net.os link w'.net.os
  unfolding open_link
  open_link-IsReady said port w =
      let (at, n', opened, (link, here, links, ready, listens)) =
        Returns-eq ((listen_link-Opened t address port w.net).0 transport) in
      let line : Stream × Line =
        (stdout, numbered (str_append said (str_append address ":")) (int_of port)) in
      let w' : World = record w { net = record n' { console = n'.console ++ line ∷ [] } } in
      (link, w', rw typed (rw addressed (rw (opened, here, zoom) refl)), links, ready, listens)

  -- With a link type that is UDP or TCP and an address, `main` opens three links: they stand behind
  -- those that there were, each with the functions of the transport, and links A, B and C point to
  -- them in this order; one after the other, they listen on the given port and the two ports after it,
  -- and each keeps the socket that is bound to its port.
  pub open_links-IsReady :
      (w : World)
      → Returns
          (λ (a, b, c) w'.
            (link_a : Link) × (link_b : Link) × (link_c : Link) × (os1 : p.Os) × (os2 : p.Os)
            × (w'.net.links ≡ w.net.links ++ link_a ∷ link_b ∷ link_c ∷ [])
            × (a ≡ some (length w.net.links))
            × (b ≡ some (length w.net.links + 1))
            × (c ≡ some (length w.net.links + 2))
            × IsReady t options.port link_a
            × IsReady t (next_port options.port) link_b
            × IsReady t (next_port (next_port options.port)) link_c
            × Listens t options.port w.net.os link_a os1
            × Listens t (next_port options.port) os1 link_b os2
            × Listens t (next_port (next_port options.port)) os2 link_c w'.net.os)
          (open_links options w)
  unfolding open_links
  open_links-IsReady w =
      let (link_a, w1, opened_a, links_a, ready_a, listens_a) =
        open_link-IsReady "Link A created at " options.port w in
      let (link_b, w2, opened_b, links_b, ready_b, listens_b) =
        open_link-IsReady "Link B created at " (next_port options.port) w1 in
      let (link_c, w3, opened_c, links_c, ready_c, listens_c) =
        open_link-IsReady "Link C created at " (next_port (next_port options.port)) w2 in
      let two : w2.net.links ≡ w.net.links ++ link_a ∷ link_b ∷ [] =
        links_b
        ∙ ap (λ ls. ls ++ link_b ∷ []) links_a
        ∙ append_assoc w.net.links (link_a ∷ []) (link_b ∷ []) in
      let three : w3.net.links ≡ w.net.links ++ link_a ∷ link_b ∷ link_c ∷ [] =
        links_c
        ∙ ap (λ ls. ls ++ link_c ∷ []) two
        ∙ append_assoc w.net.links (link_a ∷ link_b ∷ []) (link_c ∷ []) in
      rw opened_a (
        rw opened_b (
          rw opened_c (
            returns (
              link_a,
              link_b,
              link_c,
              w1.net.os,
              w2.net.os,
              three,
              refl,
              ap some (ap length links_a ∙ length-append w.net.links (link_a ∷ [])),
              ap some (ap length two ∙ length-append w.net.links (link_a ∷ link_b ∷ [])),
              ready_a,
              ready_b,
              ready_c,
              listens_a,
              listens_b,
              listens_c,
            ))))
