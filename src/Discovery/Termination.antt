-- ===== src/Discovery/Termination.antt =====
-- network/components/discovery/rpc.go: a lookup ends. Each query asks a peer that was not visited,
-- and the keys of the peers of the network are finitely many.
use carrier.Prelude.{ℕ, ◌≡◌, Bool, List, [], Bytes}
use carrier.Outcome.{ok}
use carrier.Peer.Identity.{PeerId}
use carrier.Discovery.Lookup.{Answer, Search, search}
use carrier.Discovery.Rounds.{SortsSlice}
use carrier.Discovery.Progress.{IsSearch}

module _ (sort_slice : (ℕ → ℕ → Bool) → List PeerId → List PeerId) (sorts : SortsSlice sort_slice)
    (target : PeerId) (alpha : ℕ) (self : PeerId) (keys : List Bytes) where
  abbrev Ends : List Answer → Search → Type 0
  Ends answers s =
      (s' : Search) × (search sort_slice target alpha answers s ≡ ok s')
      × (s'.asked ≡ [])
      × IsSearch self keys s'
