-- ===== src/Tests/Searches.antt =====
-- network/components/discovery on the table of two peers.
use carrier.Prelude.{
  ℕ, ◌≡◌, refl, arith, Bool, true, false, List, [], ◌∷◌, none, some, Bytes, replicate,
}
use carrier.Outcome.{Outcome, ok, panic}
use carrier.Peer.Identity.{PeerId, equals, public_key_hex}
use carrier.Dht.Routes.{RoutingTable, peer_exists}
use carrier.Dht.Invariant.{IsRouting}
use carrier.Discovery.Lookup.{Answer}
use carrier.Discovery.FindNode.{distribute}
use carrier.Discovery.Paths.{distribute-panic}
use carrier.Discovery.Receive.{Options, peer_disconnect}
use carrier.Discovery.Handlers.{peer_disconnect-gone}
use carrier.Tests.Tables.{peer, me, two_peers, two_peers-IsRouting}

peer_disconnect-gone_example :
    (t' : RoutingTable) × (peer_disconnect (some (peer 128 1)) two_peers ≡ ok t')
    × (peer_exists t' (peer 128 1) ≡ false)
    × ((q : PeerId) → equals q (peer 128 1) ≡ false → peer_exists t' q ≡ peer_exists two_peers q)
    × IsRouting t'
peer_disconnect-gone_example = peer_disconnect-gone (peer 128 1) two_peers two_peers-IsRouting refl

-- The order of the queue is any permutation: here, none.
abbrev unsorted : (ℕ → ℕ → Bool) → List PeerId → List PeerId
unsorted less xs = xs

abbrev two_keys : List Bytes
two_keys = public_key_hex (peer 128 1) ∷ public_key_hex (peer 192 2) ∷ []

-- The first query names the second peer; the others fail.
abbrev naming : Answer
naming = record {
  which = 0;
  response = some (peer 192 2 ∷ []);
  online = λ p. true;
  bootstraps = λ p. false;
}

abbrev failing : Answer
failing = record { which = 0; response = none; online = λ p. true; bootstraps = λ p. false }

-- The table once the node's own entry was removed from it.
abbrev others_only : RoutingTable
others_only = record {
  self = me;
  buckets =
      (peer 192 2 ∷ peer 128 1 ∷ [])
      ∷ []
      ∷ []
      ∷ []
      ∷ []
      ∷ []
      ∷ []
      ∷ []
      ∷ []
      ∷ []
      ∷ []
      ∷ []
      ∷ []
      ∷ []
      ∷ []
      ∷ []
      ∷ [];
}

-- Eighteen answers for each of two lookups.
abbrev many : List Answer
many = naming ∷ replicate 17 failing

-- The node stands between two peers that are nearer and farther.
distribute-panic_example :
    distribute 8 me.address 0
      (peer 128 1 ∷ me ∷ peer 192 2 ∷ [])
      (record { visited = []; lookups = []; results = [] })
    ≡ panic
distribute-panic_example =
    distribute-panic 8 me.address (omega arith) (peer 128 1 ∷ []) [] me (peer 192 2)
      (record { visited = []; lookups = []; results = [] }) (refl, tt) refl refl (omega arith)

-- A search that finds nobody.
abbrev finds_none : PeerId → RoutingTable → Outcome (List PeerId × RoutingTable)
finds_none target t = ok ([], t)

abbrev all_enabled : Options
all_enabled = record { disable_ping = false; disable_pong = false; disable_lookup = false }
