-- ===== src/StreamLayer/Routing.antt =====
-- Which connections reach Raft, and in what state.
use aphros.Base.{
  ℕ, ◌≡◌, refl, ap, ◌∙◌, true, false, List, [], ◌∷◌, ◌++◌, Bool-cases, inl, inr, Option, some,
  if◌then◌else◌, none, sym,
}
use aphros.Result.{ok, err, io_failure}
use aphros.StreamLayer.{
  Ciphers, StreamLayer, Conn, bare, client_over, server_over, on_wire, identified, raft_rpc, dial,
  accept, is_raft,
}

module _ {Tls : Type 0} (tls : Ciphers Tls) where
  dialled :
      (l : StreamLayer Tls) (c c' : Conn Tls)
      → c.sent ≡ []
      → c.side ≡ bare
      → dial tls l (ok c) ≡ ok c'
      → c' ≡ client_over l.peer_tls (record c { sent = raft_rpc ∷ [] })
  unfolding dial
  dialled l c c' fresh plain runs = elim (Bool-cases c.broken) [
    | inl broken ↦
        let failed : dial tls l (ok c) ≡ err io_failure =
          ap
            (λ b. identified tls l (
              if b
              then err io_failure
              else ok (record c { sent = c.sent ++ on_wire tls c.side raft_rpc })))
            broken in
        let clash : err io_failure ≡ ok c' = sym failed ∙ runs in cc
    | inr sound ↦
        let wire : c.sent ++ on_wire tls c.side raft_rpc ≡ raft_rpc ∷ [] =
          rw fresh (rw plain refl) in
        let goes : dial tls l (ok c)
            ≡ ok (client_over l.peer_tls (record c { sent = raft_rpc ∷ [] })) =
          ap
            (λ b. identified tls l (
              if b
              then err io_failure
              else ok (record c { sent = c.sent ++ on_wire tls c.side raft_rpc })))
            sound
          ∙ ap (λ b. ok (client_over l.peer_tls (record c { sent = b }))) wire in
        let same : ok (client_over l.peer_tls (record c { sent = raft_rpc ∷ [] })) ≡ ok c' =
          sym goes ∙ runs in
        cc
  ]

  over_sent : (t : Option Tls) (c : Conn Tls) → (client_over t c).sent ≡ c.sent
  over_sent none c = refl
  over_sent (some t) c = refl

  -- A connection without TLS on which nothing was written, that Dial gave back, and its other end, where
  -- its bytes and whatever follows them have come, without TLS too: the byte of Raft is on the wire as
  -- it is, and then the connection is under the peer's TLS where there is one; the matcher there takes
  -- the other end, and Accept gives it, under the server's TLS where there is one, with what follows
  -- unread.
  pub accept-dial :
      (l l' : StreamLayer Tls) (c c' d : Conn Tls) (more : List ℕ)
      → c.sent ≡ []
      → c.side ≡ bare
      → dial tls l (ok c) ≡ ok c'
      → d.unread ≡ c'.sent ++ more
      → d.broken ≡ false
      → d.side ≡ bare
      → (c' ≡ client_over l.peer_tls (record c { sent = raft_rpc ∷ [] }))
        × (is_raft tls d ≡ true)
        × (accept tls l' (ok d) ≡ ok (server_over l'.server_tls (record d { unread = more })))
  unfolding accept is_raft
  accept-dial l l' c c' d more fresh plain runs arrives sound plain' =
      let is = dialled l c c' fresh plain runs in
      let first : d.unread ≡ raft_rpc ∷ more =
        arrives
        ∙ ap (λ (x : Conn Tls). x.sent ++ more) is
        ∙ ap (λ b. b ++ more) (over_sent l.peer_tls (record c { sent = raft_rpc ∷ [] })) in
      (is, rw sound (rw plain' (rw first refl)), rw sound (rw plain' (rw first refl)))
