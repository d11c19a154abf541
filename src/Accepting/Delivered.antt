-- ===== src/Accepting/Delivered.antt =====
-- network/network.go: messages that are sent over a connection reach their client.
use carrier.Prelude.{
  ℕ, zero, suc, ◌+◌, ◌<◌, ◌≡◌, refl, ap, arith, Bool, true, List, [], ◌∷◌, map, Option, none, some,
  Bytes, length, All,
}
use carrier.Wire.Result.{err}
use carrier.Wire.Channel.{Conn, content, read_exact_short}
use carrier.Wire.Compress.{Config, Compressors}
use carrier.Wire.Consuming.{receive_message-consumes}
use carrier.Wire.Message.{WireId, Message, Codec}
use carrier.Wire.Receive.{receive_message, network_id_unread}
use carrier.Wire.RoundTrip.{receive_message-build_frame}
use carrier.Wire.Sending.{AreSent}
use carrier.Requests.Prepare.{signature_accepted}
use carrier.ConnMgr.State.{Manager}
use carrier.ConnMgr.Operations.{Incoming}
use carrier.Accepting.Loop.{Receiver, returned, Run, accept_loop, run_loop, end_loop, accept}
use carrier.Accepting.Known.{IsKnown, TakesAll, accept_message-IsKnown}

-- A message of that sender, whose signature is accepted.
abbrev pub IsFrom : Receiver → WireId → Message → Type 0
IsFrom e id m =
    (m.sender ≡ some id) × (signature_accepted e.speaker.policy e.speaker.bodies m ≡ true)

-- The run that hands all of them to one client.
abbrev pub HandsOver : ℕ → List Message → Run → Type 0
HandsOver r ms run = (run.handed_over ≡ map (λ m. (r, m)) ms) × (run.finish ≡ returned)

module _ (codec : Codec) (z : Compressors) (c : Config) where
  receive_message-nothing :
      (conn : Conn) → content conn ≡ [] → receive_message codec z c conn ≡ err network_id_unread
  unfolding receive_message
  receive_message-nothing conn h =
      rw (read_exact_short 4 conn (omega (arith, ap (length {A = ℕ}) h))) refl

  module _ (e : Receiver) (acking : Bool) (incoming : Incoming) (others : ℕ → Manager → Manager)
      (id : WireId) (r : ℕ) (takes : TakesAll e.speaker)
      (keep : (turn : ℕ) (n : Manager) → IsKnown e id r n → IsKnown e id r (others turn n)) where
    accept_loop-HandsOver :
        (ms : List Message) (frames : List Bytes) (fuel turn : ℕ) (conn : Conn) (n : Manager)
        → AreSent codec z c ms frames
        → All (IsFrom e id) ms
        → c.net_id < 4294967296
        → content conn ≡ content frames
        → length (content conn) < fuel
        → IsKnown e id r n
        → HandsOver r ms
            (accept_loop e acking incoming (receive_message codec z c) others fuel turn conn n)
    unfolding accept_loop
    accept_loop-HandsOver ms frames zero turn conn n s from fits h l k = absurd (omega arith)
    accept_loop-HandsOver [] [] (suc fuel) turn conn n s from fits h l k =
        rw (receive_message-nothing conn h, accept_loop) (refl, refl)
    accept_loop-HandsOver [] (f ∷ fs) (suc fuel) turn conn n s from fits h l k = absurd s
    accept_loop-HandsOver (m ∷ ms) [] (suc fuel) turn conn n s from fits h l k = absurd s
    accept_loop-HandsOver (m ∷ ms) (f ∷ fs) (suc fuel) turn conn n s from fits h l k =
        let one = s.0 in
        let (conn1, got, left) =
          receive_message-build_frame codec z c m conn (content fs) one.built one.canonical
            one.valid fits one.filled one.fits h in
        let (n1, taken, k1) =
          accept_message-IsKnown e id r acking turn incoming m (others turn n) takes (keep turn n k)
            from.0.0 from.0.1 in
        let shorter = (receive_message-consumes codec z c conn m conn1 got).1 in
        let (all, ended) =
          accept_loop-HandsOver ms fs fuel (turn + 1) conn1 n1 s.1 from.1 fits left
            (omega (arith, shorter, l)) k1 in
        rw (got, accept_loop, taken) (ap (◌∷◌ (r, m)) all, ended)

end_loop-HandsOver :
    (r : ℕ) (ms : List Message) (cli : Option ℕ) (run : Run)
    → HandsOver r ms run
    → HandsOver r ms (end_loop cli run)
unfolding end_loop
end_loop-HandsOver r ms none run h = h
end_loop-HandsOver r ms (some q) run h = h

-- From the sender's frames to the receiver's client. The frames of messages of one sender stand one
-- after the other on the connection, in whatever segments; the sender's client is there and ready,
-- and the other goroutines leave it so; its signatures are accepted, and the acknowledgements can be
-- written. Then `Accept` hands exactly these messages, in order, to that client, and returns.
pub accept-HandsOver :
    (codec : Codec) (z : Compressors) (c : Config) (e : Receiver) (incoming : Incoming)
    (others : ℕ → Manager → Manager) (cli : Option ℕ) (id : WireId) (r : ℕ) (ms : List Message)
    (frames : List Bytes) (conn : Conn) (n : Manager)
    → AreSent codec z c ms frames
    → All (IsFrom e id) ms
    → c.net_id < 4294967296
    → content conn ≡ content frames
    → TakesAll e.speaker
    → ((turn : ℕ) (n : Manager) → IsKnown e id r n → IsKnown e id r (others turn n))
    → IsKnown e id r n
    → HandsOver r ms (accept e codec z c incoming others cli conn n)
unfolding accept run_loop
accept-HandsOver codec z c e incoming others cli id r ms frames conn n s from fits h takes keep k =
    end_loop-HandsOver r ms cli _ (
      accept_loop-HandsOver codec z c e true incoming others id r takes keep ms frames
        (suc (length (content conn))) 0 conn n s from fits h (omega arith) k)
