-- ===== src/Accepting/Forged.antt =====
-- network/network.go: packages with malformed signatures in `AcceptUdp`.
use carrier.Prelude.{ℕ, ◌≡◌, refl, ap, ◌∙◌, arith, false, List, [], ◌∷◌, ◌++◌, Option, none, some}
use carrier.Wire.Message.{WireId, Message, Codec}
use carrier.Wire.Udp.{received, receive_udp_message}
use carrier.Requests.Prepare.{signature_accepted}
use carrier.ConnMgr.State.{Manager}
use carrier.Accepting.Loop.{Receiver}
use carrier.Accepting.Udp.{
  UdpTurn, Arrival, dropped, udp_turn, submit, udp_round, udp_loop, end_udp, accept_udp,
}

-- A package with a message whose signature is malformed.
abbrev pub IsForged : Receiver → Codec → ℕ → Arrival → Type 0
IsForged e codec net_id a =
    (m : Message) × (id : WireId) × (receive_udp_message codec net_id a.packet ≡ received m)
    × (m.sender ≡ some id)
    × (signature_accepted e.speaker.policy e.speaker.bodies m ≡ false)
    × ((n : Manager) → a.others n ≡ n)

module _ (e : Receiver) (codec : Codec) (net_id socket : ℕ) where
  forged-first :
      (a : Arrival) (arrivals : List Arrival) (client : Option ℕ) (n : Manager)
      → IsForged e codec net_id a
      → udp_loop e codec net_id socket (a ∷ arrivals) client n
        ≡ udp_loop e codec net_id socket arrivals client n
  unfolding udp_loop
  forged-first a arrivals client n (m, id, got, from, bad, quiet) =
      let rest = udp_loop e codec net_id socket arrivals in
      let dropping : udp_turn e socket id m client (a.others n)
          ≡ dropped e socket client (a.others n) =
        rw (bad, udp_turn) refl in
      let t = udp_turn e socket id m client (a.others n) in
      let turned : udp_round e codec net_id socket a rest client n
          ≡ submit m t (rest t.client t.tables) =
        ground arith in
      turned
      ∙ ap (λ (t : UdpTurn). submit m t (rest t.client t.tables)) dropping
      ∙ ap (rest client) (quiet n)

  forged-anywhere :
      (before : List Arrival) (a : Arrival) (arrivals : List Arrival) (client : Option ℕ)
      (n : Manager)
      → IsForged e codec net_id a
      → udp_loop e codec net_id socket (before ++ (a ∷ arrivals)) client n
        ≡ udp_loop e codec net_id socket (before ++ arrivals) client n
  unfolding udp_loop
  forged-anywhere [] a arrivals client n forged = forged-first a arrivals client n forged
  forged-anywhere (b ∷ before) a arrivals client n forged = λ i.
      udp_round e codec net_id socket b
        (λ client' n'. forged-anywhere before a arrivals client' n' forged i) client n

  -- Over UDP a package with a malformed signature leaves no trace, wherever it comes: the clients, the
  -- tables, what is submitted and how the loop ends are as if it had not come.
  pub accept_udp-forged :
      (before : List Arrival) (a : Arrival) (arrivals : List Arrival) (n : Manager)
      → IsForged e codec net_id a
      → accept_udp e codec net_id socket (before ++ (a ∷ arrivals)) n
        ≡ accept_udp e codec net_id socket (before ++ arrivals) n
  unfolding accept_udp
  accept_udp-forged before a arrivals n forged =
      ap end_udp (forged-anywhere before a arrivals none n forged)
