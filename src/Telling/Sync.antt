-- ===== src/Telling/Sync.antt =====
-- network/client.go: what telling a peer keeps of the tables.
use carrier.Prelude.{ℕ, ◌≡◌, refl, Bool, Option, none, some, Bytes}
use carrier.Wire.Result.{Result, ok, err}
use carrier.Wire.Message.{Message}
use carrier.Requests.Prepare.{PrepareError, prepare_message}
use carrier.ConnMgr.State.{Manager}
use carrier.ConnMgr.Operations.{client_peer_id}
use carrier.ConnMgr.Sync.{IsSync}
use carrier.ConnMgr.Writing.{WriteError, write-IsSync}
use carrier.Telling.Tell.{Speaker, TellError, unprepared, write_as, told, send, tell}

told-tables : (r : (Bytes × Option WriteError) × Manager) → (told r).1 ≡ r.1
told-tables ((sent, none), n) = refl
told-tables ((sent, some e), n) = refl

module _ (s : Speaker) (signing : Bool) (P : Manager → Type 0) (n : Manager) where
  -- What a write keeps, telling a peer keeps.
  pub send-keeps :
      (peer : Bytes) (body : Option s.bodies.Body)
      → P n
      → ((m : Message) → P (write_as s peer m n).1)
      → P (send s signing peer body n).1
  unfolding send
  send-keeps peer body h keep = go (prepare_message s.policy s.bodies signing s.node body)
    where
      go :
          (r : Result PrepareError Message)
          → P
              (elim r as (λ x. Option TellError × Manager) [
                | err e ↦ (some (unprepared e), n)
                | ok m ↦ told (write_as s peer m n)
              ]).1
      go (err e) = h
      go (ok m) = rw told-tables (keep m)

  pub tell-keeps :
      (r : ℕ) (body : Option s.bodies.Body)
      → P n
      → ((peer : Bytes) (m : Message) → P (write_as s peer m n).1)
      → P (tell s signing r body n).1
  unfolding tell
  tell-keeps r body h keep =
      send-keeps (client_peer_id (n.clients r)) body h (keep (client_peer_id (n.clients r)))

pub tell-IsSync :
    (s : Speaker) (signing : Bool) (r : ℕ) (body : Option s.bodies.Body) (n : Manager)
    → IsSync n
    → IsSync (tell s signing r body n).1
tell-IsSync s signing r body n h =
    tell-keeps s signing IsSync n r body h
      (λ peer m. write-IsSync s.own s.is_net_conn s.sends peer m n h)
