-- ===== src/Telling/Tell.antt =====
-- network/client.go: `Tell` and `TellByAddr`; network/network.go: `Send`.
use carrier.Prelude.{ℕ, Bool, Option, none, some, Bytes}
use carrier.Wire.Result.{ok, err}
use carrier.Wire.Frame.{SendError}
use carrier.Wire.Message.{Message}
use carrier.Wire.Signing.{Policy}
use carrier.Requests.Prepare.{PrepareError, Node, Bodies, prepare_message}
use carrier.ConnMgr.State.{Protocol, Manager}
use carrier.ConnMgr.Operations.{client_peer_id}
use carrier.ConnMgr.Writing.{WriteError, write}

-- What a node prepares and writes its messages with: `own` is the scheme of its own address,
-- `is_net_conn` tells which connections are a `net.Conn`, and `sends` is `transmit` of the writers.
pub record Speaker : Type 1 where
  pub policy : Policy
  pub bodies : Bodies
  pub node : Node
  pub own : Option Protocol
  pub is_net_conn : ℕ → Bool
  pub sends : Protocol → Message → Bytes × Option SendError

pub data TellError : Type 0 where
  unprepared : PrepareError → TellError
  unwritten : WriteError → TellError

abbrev pub write_as : Speaker → Bytes → Message → Manager → (Bytes × Option WriteError) × Manager
write_as s = write s.own s.is_net_conn s.sends

abbrev pub told : (Bytes × Option WriteError) × Manager → Option TellError × Manager
told ((sent, none), n) = (none, n)
told ((sent, some e), n) = (some (unwritten e), n)

module _ (s : Speaker) (signing : Bool) where
  -- `Send`: the message to the peer of that ID.
  unfoldable pub send : Bytes → Option s.bodies.Body → Manager → Option TellError × Manager
  unfolding prepare_message write
  send peer body n = elim (prepare_message s.policy s.bodies signing s.node body) [
    | err e ↦ (some (unprepared e), n)
    | ok m ↦ told (write_as s peer m n)
  ]

  -- `Tell`
  unfoldable pub tell : ℕ → Option s.bodies.Body → Manager → Option TellError × Manager
  unfolding send
  tell r body n = send (client_peer_id (n.clients r)) body n

  -- `TellByAddr`
  unfoldable pub tell_by_addr : ℕ → Option s.bodies.Body → Manager → Option TellError × Manager
  unfolding send
  tell_by_addr r body n = send (n.clients r).address body n
