-- ===== src/Accepting/Packages.antt =====
-- network/network.go: what packages of any bytes do to `AcceptUdp`.
use carrier.Prelude.{
  ℕ, ◌≡◌, ◌≢◌, sym, subst, arith, true, false, List, [], ◌∷◌, Option, none, some, Bytes, All,
  Bool-cases, inl, inr,
}
use carrier.Peer.Identity.{public_key_hex}
use carrier.Wire.Message.{WireId, to_peer, Message, Codec}
use carrier.Wire.Udp.{
  UdpResult, nothing, unmarshal_failed, invalid_message, received, receive_udp_message,
}
use carrier.Requests.Prepare.{signature_accepted}
use carrier.ConnMgr.State.{Manager, Reply, other}
use carrier.ConnMgr.Operations.{udp_conn, get_or_set_peer_client, set_client_id, close}
use carrier.ConnMgr.Sync.{IsSync}
use carrier.ConnMgr.Calls.{close-IsSync, get_or_set_peer_client-IsSync}
use carrier.Accepting.Loop.{Receiver, Finish, returned, crashed, running, inbound}
use carrier.Accepting.Handed.{IsVerified}
use carrier.Accepting.Udp.{
  UdpRun, UdpTurn, Arrival, check_udp_client, after_udp_client, udp_turn, submit, udp_round,
  udp_loop, end_udp, accept_udp,
}

-- The submitted messages passed the check of their signatures, and the tables are in sync.
pub record IsSafe (e : Receiver) (run : UdpRun) : Type 0 where
  pub verified : All (IsVerified e) run.submitted
  pub in_sync : IsSync run.tables

-- A turn that submits nothing, or a message that is verified.
abbrev IsFair : Receiver → Message → Option ℕ → Type 0
IsFair e m none = Unit
IsFair e m (some r) = IsVerified e (r, m)

module _ (e : Receiver) (socket : ℕ)
    (supported : (a : Bytes) → e.outside.protocol a ≢ some other) where
  check_udp_client-IsSync :
      (r : ℕ) (id : WireId) (n : Manager)
      → IsSync n
      → IsSync (check_udp_client e socket r id n).tables
  unfolding check_udp_client
  check_udp_client-IsSync r id n h =
      let same : (check_udp_client e socket r id n).tables ≡ n = ground arith in
      subst IsSync (sym same) h

  after_udp_client-IsSync :
      (id : WireId) (r : Reply ℕ × Manager)
      → IsSync r.1
      → IsSync (after_udp_client e socket id r).tables
  unfolding after_udp_client set_client_id
  after_udp_client-IsSync id (Reply.err x, n) h = h
  after_udp_client-IsSync id (Reply.ok r, n) h =
      check_udp_client-IsSync r id (set_client_id r (to_peer id) n) h

  udp_turn-IsFair :
      (id : WireId) (m : Message) (client : Option ℕ) (n : Manager)
      → IsSync n
      → IsFair e m (udp_turn e socket id m client n).to
        × IsSync (udp_turn e socket id m client n).tables
  unfolding udp_turn
  udp_turn-IsFair id m client n h =
      elim (Bool-cases (signature_accepted e.speaker.policy e.speaker.bodies m)) [
        | inr bad ↦ rw (bad, udp_turn) (tt, h)
        | inl good ↦
            let found =
              get_or_set_peer_client e.outside id.address (public_key_hex (to_peer id))
                (inbound e false 0 (udp_conn socket)) n in
            rw (good, udp_turn)
              (
                fair good (after_udp_client e socket id found).to,
                after_udp_client-IsSync id found (
                    get_or_set_peer_client-IsSync e.outside id.address (public_key_hex (to_peer id))
                      (inbound e false 0 (udp_conn socket)) n supported h),
              )
      ]
    where
      fair :
          signature_accepted e.speaker.policy e.speaker.bodies m ≡ true
          → (to : Option ℕ) → IsFair e m to
      fair good none = tt
      fair good (some r) = good

submit-IsSafe :
    (e : Receiver) (m : Message) (t : UdpTurn) (run : UdpRun)
    → IsFair e m t.to
    → IsSafe e run
    → IsSafe e (submit m t run)
submit-IsSafe e m t run fair safe = go t.to fair
  where
    go :
        (to : Option ℕ)
        → IsFair e m to
        → IsSafe e (elim to as (λ x. UdpRun) [
          | none ↦ run
          | some r ↦ record run { submitted = (r, m) ∷ run.submitted }
        ])
    go none h = safe
    go (some r) h = record { verified = (h, safe.verified); in_sync = safe.in_sync }

end_udp-IsSafe : (e : Receiver) (run : UdpRun) → IsSafe e run → IsSafe e (end_udp run)
unfolding end_udp
end_udp-IsSafe e run safe = go run.finish run.client
  where
    go :
        (finish : Finish) (client : Option ℕ)
        → IsSafe e (elim finish as (λ x. UdpRun) [
          | running ↦ run
          | returned ↦ elim client [
            | none ↦ run
            | some r ↦ record run { tables = close r run.tables }
          ]
          | crashed ↦ elim client [
            | none ↦ run
            | some r ↦ record run { tables = close r run.tables }
          ]
        ])
    go running client = safe
    go returned none = safe
    go returned (some r) = record {
      verified = safe.verified;
      in_sync = close-IsSync r run.tables safe.in_sync;
    }
    go crashed none = safe
    go crashed (some r) = record {
      verified = safe.verified;
      in_sync = close-IsSync r run.tables safe.in_sync;
    }

abbrev pub KeepSync : List Arrival → Type 0
KeepSync = All (λ a. (n : Manager) → IsSync n → IsSync (a.others n))

module _ (e : Receiver) (codec : Codec) (net_id socket : ℕ)
    (supported : (a : Bytes) → e.outside.protocol a ≢ some other) where
  udp_round-IsSafe :
      (a : Arrival) (rest : Option ℕ → Manager → UdpRun) (client : Option ℕ) (n : Manager)
      → IsSync (a.others n)
      → ((client : Option ℕ) (n : Manager) → IsSync n → IsSafe e (rest client n))
      → IsSafe e (udp_round e codec net_id socket a rest client n)
  unfolding udp_round
  udp_round-IsSafe a rest client n h later = go (receive_udp_message codec net_id a.packet)
    where
      stop : Finish → UdpRun
      stop finish = record { submitted = []; client = client; finish = finish; tables = a.others n }

      ending : (finish : Finish) → IsSafe e (stop finish)
      ending finish = record { verified = tt; in_sync = h }

      from_sender :
          (m : Message) (sender : Option WireId)
          → IsSafe e (elim sender as (λ x. UdpRun) [
            | none ↦ stop crashed
            | some id ↦
                let t = udp_turn e socket id m client (a.others n) in
                submit m t (rest t.client t.tables)
          ])
      from_sender m none = ending crashed
      from_sender m (some id) =
          let t = udp_turn e socket id m client (a.others n) in
          let (fair, sync) = udp_turn-IsFair e socket supported id m client (a.others n) h in
          submit-IsSafe e m t (rest t.client t.tables) fair (later t.client t.tables sync)

      go :
          (r : UdpResult)
          → IsSafe e (elim r as (λ x. UdpRun) [
            | nothing ↦ stop returned
            | unmarshal_failed ↦ stop returned
            | invalid_message ↦ stop returned
            | UdpResult.panicked ↦ stop crashed
            | received m ↦ elim m.sender [
              | none ↦ stop crashed
              | some id ↦
                  let t = udp_turn e socket id m client (a.others n) in
                  submit m t (rest t.client t.tables)
            ]
          ])
      go nothing = ending returned
      go unmarshal_failed = ending returned
      go invalid_message = ending returned
      go UdpResult.panicked = ending crashed
      go (received m) = from_sender m m.sender

  udp_loop-IsSafe :
      (arrivals : List Arrival) (client : Option ℕ) (n : Manager)
      → KeepSync arrivals
      → IsSync n
      → IsSafe e (udp_loop e codec net_id socket arrivals client n)
  unfolding udp_loop
  udp_loop-IsSafe [] client n keep h = record { verified = tt; in_sync = h }
  udp_loop-IsSafe (a ∷ arrivals) client n keep h =
      udp_round-IsSafe a (udp_loop e codec net_id socket arrivals) client n (keep.0 n h)
        (λ client' n' h'. udp_loop-IsSafe arrivals client' n' keep.1 h')

  -- Whatever packages come, well-formed or not: `AcceptUdp` submits only messages that passed the check
  -- of their signatures, and keeps the tables in sync, if the other goroutines do and the addresses
  -- have supported schemes.
  pub accept_udp-IsSafe :
      (arrivals : List Arrival) (n : Manager)
      → KeepSync arrivals
      → IsSync n
      → IsSafe e (accept_udp e codec net_id socket arrivals n)
  unfolding accept_udp
  accept_udp-IsSafe arrivals n keep h =
      end_udp-IsSafe e (udp_loop e codec net_id socket arrivals none n)
        (udp_loop-IsSafe arrivals none n keep h)
