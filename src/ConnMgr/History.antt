-- ===== src/ConnMgr/History.antt =====
-- network/network.go and network/client.go: the managers that can come about.
use carrier.Prelude.{ℕ, ◌≡◌, ◌≢◌, arith, Bool, Option, [], some, Bytes, bytes_eq}
use carrier.Prelude.Table.{load, has, has-store}
use carrier.ConnMgr.State.{PeerState, Protocol, other, Outside, Manager}
use carrier.ConnMgr.Operations.{Incoming, update_conn_state, get_or_set_peer_client, close}
use carrier.ConnMgr.Writing.{write, write-IsSync}
use carrier.ConnMgr.StreamWriting.{stream_write, stream_write-IsSync}
use carrier.Wire.Frame.{SendError}
use carrier.Wire.Message.{Message}
use carrier.ConnMgr.Sync.{IsSync}
use carrier.ConnMgr.Calls.{close-IsSync, get_or_set_peer_client-IsSync}

-- One call on the manager. The mutexes make each of them one step.
pub data Step (w : Outside) : Manager → Manager → Type 0 where
  client_step :
      {n : Manager} (raw peer_id : Bytes) (incoming : Incoming)
      → Step w n (get_or_set_peer_client w raw peer_id incoming n).1
  close_step : {n : Manager} (r : ℕ) → Step w n (close r n)
  write_step :
      {n : Manager} (own : Option Protocol) (is_net_conn : ℕ → Bool)
      (sends : Protocol → Message → Bytes × Option SendError) (peer : Bytes) (m : Message)
      → Step w n (write own is_net_conn sends peer m n).1
  stream_write_step :
      {n : Manager} (own : Option Protocol) (is_net_conn : ℕ → Bool) (stream_id peer : Bytes)
      (m : Message)
      → Step w n (stream_write stream_id peer m own is_net_conn n).1
  state_step : {n : Manager} (peer : Bytes) (s : PeerState) → Step w n (update_conn_state peer s n)

-- The managers that calls reach from a first one.
pub data Reachable (w : Outside) (first : Manager) : Manager → Type 0 where
  start : Reachable w first first
  next : {n n' : Manager} → Reachable w first n → Step w n n' → Reachable w first n'

-- A manager with no entry.
abbrev pub IsEmpty : Manager → Type 0
IsEmpty n = (n.peers ≡ []) × (n.connections ≡ []) × (n.streams ≡ [])

update_conn_state-IsSync :
    (peer : Bytes) (s : PeerState) (n : Manager) → IsSync n → IsSync (update_conn_state peer s n)
unfolding update_conn_state
update_conn_state-IsSync peer s n h k = ground (arith, h k, has-store peer k s n.conn_states)

IsEmpty-IsSync : (n : Manager) → IsEmpty n → IsSync n
unfolding has load
IsEmpty-IsSync n e k = ground arith

-- However clients are created, found, re-keyed and closed, messages are written and states are set,
-- from a manager with no entry, by calls with addresses of supported schemes: every peer has a
-- connection, streams and a state, and nobody else has a connection or streams.
pub Reachable-IsSync :
    (w : Outside) (first n : Manager)
    → ((a : Bytes) → w.protocol a ≢ some other)
    → IsEmpty first
    → Reachable w first n
    → IsSync n
Reachable-IsSync w first n p e start = IsEmpty-IsSync n e
Reachable-IsSync w first n p e (next before (client_step raw peer_id incoming)) =
    get_or_set_peer_client-IsSync w raw peer_id incoming _ p (Reachable-IsSync w first _ p e before)
Reachable-IsSync w first n p e (next before (close_step r)) =
    close-IsSync r _ (Reachable-IsSync w first _ p e before)
Reachable-IsSync w first n p e (next before (state_step peer s)) =
    update_conn_state-IsSync peer s _ (Reachable-IsSync w first _ p e before)
Reachable-IsSync w first n p e (next before (write_step own is_net_conn sends peer m)) =
    write-IsSync own is_net_conn sends peer m _ (Reachable-IsSync w first _ p e before)
Reachable-IsSync w first n p e (next before (stream_write_step own is_net_conn stream_id peer m)) =
    stream_write-IsSync stream_id peer m own is_net_conn _ (Reachable-IsSync w first _ p e before)
