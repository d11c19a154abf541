-- ===== src/Discovery/Ends.antt =====
-- network/components/discovery/rpc.go: `FindNode` as a whole.
use carrier.Prelude.{ℕ, ◌+◌, ◌≤◌, Bool, List, Bytes, length, All}
use carrier.Peer.Identity.{PeerId}
use carrier.Discovery.Lookup.{Answer}
use carrier.Discovery.Progress.{IsProper}
use carrier.Discovery.Rounds.{SortsSlice}
use carrier.Discovery.FindNode.{Paths}

module _ (sort_slice : (ℕ → ℕ → Bool) → List PeerId → List PeerId) (sorts : SortsSlice sort_slice)
    (target : PeerId) (alpha : ℕ) (self : PeerId) (keys : List Bytes) where
  -- The answers that come to one lookup are enough to end it.
  abbrev pub AreEnough : List Answer → Type 0
  AreEnough answers = All (IsProper self keys) answers × (alpha + length keys ≤ length answers)
