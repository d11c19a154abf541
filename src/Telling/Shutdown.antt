-- ===== src/Telling/Shutdown.antt =====
-- network/network.go: `Close` of the network closes the clients that `Range` visits.
use carrier.Prelude.{
  ◌+◌, ◌≤◌, length, Bool, Option, none, ℕ, ◌≡◌, ◌≢◌, refl, ap, sym, ◌∙◌, subst, arith, nat_beq_iff,
  true, false, List, [], ◌∷◌, some, Bytes, bytes_eq, All, Option-cases, inl, inr,
}
use carrier.Prelude.Table.{load, has, load-delete, has_of_load, has_of_none}
use carrier.ConnMgr.State.{Manager}
use carrier.ConnMgr.Operations.{
  update_conn_state, forget, forget_peer, forget_address, remove_entries, close, client_address,
  client_peer_id, client_exist,
}
use carrier.ConnMgr.Sync.{IsSync}
use carrier.ConnMgr.Calls.{close-IsSync}
use carrier.ConnMgr.Lifecycle.{remove_entries-clients, shut, close-first, close-gone}
use carrier.ConnMgr.Closing.{
  Halt, quit_capacity, try_close, AllFit, close-IsSmaller, try_close-AllFit,
}
use carrier.Wire.Result.{ok, err}
use carrier.Telling.Broadcasts.{each_peer, close_network}

-- The clients that `Range` visits are closed, one after the other, without a check.
close_all : List Bytes → Manager → Manager
unfolding each_peer close
close_all order n = each_peer (λ t. t) (λ r t. (close r t, true)) order n

-- What is left of the peers was there before.
abbrev IsLeft : Manager → Manager → Type 0
IsLeft n n' = (k : Bytes) (r : ℕ) → load k n'.peers ≡ some r → load k n.peers ≡ some r

forget_address-IsLeft : (key : Bytes) (n : Manager) → IsLeft n (forget_address key n)
unfolding forget_address forget update_conn_state
forget_address-IsLeft key n k r h = ground (arith, load-delete key k n.peers)

forget_peer-IsLeft : (key id : Bytes) (n : Manager) → IsLeft n (forget_peer key id n)
unfolding forget_peer forget update_conn_state
forget_peer-IsLeft key id n k r h = ground (arith, load-delete key k n.peers)

remove_entries-IsLeft : (r : ℕ) (n : Manager) → IsLeft n (remove_entries r n)
unfolding remove_entries
remove_entries-IsLeft r n = go (client_address (n.clients r))
  where
    go :
        (address : Bytes)
        → IsLeft n (elim address as (λ a. Manager) [
          | [] ↦ n
          | b ∷ rest ↦
              forget_address
                (b ∷ rest)
                (forget_peer (client_peer_id (n.clients r)) (n.clients r).pub_key n)
        ])
    go [] k q h = h
    go (b ∷ rest) k q h =
        let key = client_peer_id (n.clients r) in
        forget_peer-IsLeft key (n.clients r).pub_key n k q
          (forget_address-IsLeft (b ∷ rest) (forget_peer key (n.clients r).pub_key n) k q h)

close-IsLeft : (r : ℕ) (n : Manager) → (n.clients r).closed ≡ false → IsLeft n (close r n)
close-IsLeft r n first k q h =
    remove_entries-IsLeft r (shut r n) k q
      (ap (λ (m : Manager). load k m.peers) (sym (close-first r n first)) ∙ h)

-- The tables are in sync, and each client is open, has an address, and has the ID that it is stored
-- under.
pub record IsOwned (n : Manager) : Type 0 where
  pub in_sync : IsSync n
  pub keyed : (k : Bytes) (r : ℕ) → load k n.peers ≡ some r → client_peer_id (n.clients r) ≡ k
  pub still_open : (k : Bytes) (r : ℕ) → load k n.peers ≡ some r → (n.clients r).closed ≡ false
  pub addressed : (k : Bytes) (r : ℕ) → load k n.peers ≡ some r → client_address (n.clients r) ≢ []

close-clients :
    (r q : ℕ) (n : Manager)
    → q ≢ r
    → (n.clients r).closed ≡ false
    → (close r n).clients q ≡ n.clients q
close-clients r q n apart first =
    let other_client : (shut r n).clients q ≡ n.clients q = ground (arith, nat_beq_iff q r) in
    ap (λ (m : Manager). m.clients q) (close-first r n first)
    ∙ ap (λ (f : ℕ → _). f q) (remove_entries-clients r (shut r n))
    ∙ other_client

close-gone_here :
    (k : Bytes) (r : ℕ) (n : Manager)
    → load k n.peers ≡ some r
    → IsOwned n
    → has k (close r n).peers ≡ false
unfolding client_exist
close-gone_here k r n here o =
    let id = o.keyed k r here in
    let connected : has k n.connections ≡ true = (o.in_sync k).0 ∙ has_of_load k n.peers here in
    let gone = close-gone r n (o.still_open k r here) (o.addressed k r here) (rw id connected) in
    subst (λ j. has j (close r n).peers ≡ false) id gone.0

close-IsOwned :
    (k : Bytes) (r : ℕ) (n : Manager) → load k n.peers ≡ some r → IsOwned n → IsOwned (close r n)
close-IsOwned k r n here o = record {
  in_sync = close-IsSync r n o.in_sync;
  keyed = λ j q left.
      ap client_peer_id (same j q left)
      ∙ o.keyed j q (close-IsLeft r n (o.still_open k r here) j q left);
  still_open = λ j q left.
      ap (λ c. c.closed) (same j q left)
      ∙ o.still_open j q (close-IsLeft r n (o.still_open k r here) j q left);
  addressed = λ j q left empty.
      o.addressed j q (close-IsLeft r n (o.still_open k r here) j q left)
        (ap client_address (sym (same j q left)) ∙ empty);
}
  where
    same :
        (j : Bytes) (q : ℕ)
        → load j (close r n).peers ≡ some q
        → (close r n).clients q ≡ n.clients q
    same j q left = close-clients r q n apart (o.still_open k r here)
      where
        apart : q ≢ r
        apart e =
            let before = close-IsLeft r n (o.still_open k r here) j q left in
            let key : j ≡ k =
              sym (o.keyed j q before)
              ∙ ap (λ c. client_peer_id (n.clients c)) e
              ∙ o.keyed k r here in
            let gone = close-gone_here k r n here o in
            let there = has_of_load j (close r n).peers left in cc

All-map :
    {A : Type 0} (P Q : A → Type 0)
    → ((a : A) → P a → Q a)
    → (as_list : List A) → All P as_list
    → All Q as_list
All-map P Q f [] h = tt
All-map P Q f (x ∷ xs) h = (f x h.0, All-map P Q f xs h.1)

-- Nothing of a peer is left.
abbrev pub IsGone : Manager → Bytes → Type 0
IsGone n k = (has k n.peers ≡ false) × (has k n.connections ≡ false) × (has k n.streams ≡ false)

IsSync-IsGone : (k : Bytes) (n : Manager) → IsSync n → has k n.peers ≡ false → IsGone n k
IsSync-IsGone k n h gone = (gone, (h k).0 ∙ gone, (h k).1 ∙ gone)

-- The tables after some clients were closed: owned, and with no new peers.
abbrev IsAfter : Manager → Manager → Type 0
IsAfter n n' = IsOwned n' × IsLeft n n'

missing :
    (k : Bytes) (n n' : Manager) → IsLeft n n' → has k n.peers ≡ false → has k n'.peers ≡ false
missing k n n' left gone = elim (Option-cases (load k n'.peers)) [
  | inl e ↦ has_of_none k n'.peers e
  | inr (r, e) ↦ let there = has_of_load k n.peers (left k r e) in cc
]

abbrev AllClosed : List Bytes → Manager → Manager → Type 0
AllClosed order n n' = IsAfter n n' × All (λ k. has k n'.peers ≡ false) order

closing-gone :
    (order : List Bytes) (n : Manager) → IsOwned n → AllClosed order n (close_all order n)
unfolding close_all each_peer
closing-gone [] n o = ((o, λ k r h. h), tt)
closing-gone (k ∷ order) n o = elim (Option-cases (load k n.peers)) [
  | inl absent ↦
      let (after, all) = closing-gone order n o in
      let same : close_all (k ∷ order) n ≡ close_all order n =
        rw (close_all, each_peer, absent) refl in
      subst (AllClosed (k ∷ order) n) (sym same)
        (after, (missing k n (close_all order n) after.1 (has_of_none k n.peers absent), all))
  | inr (r, here) ↦
      let n1 = close r n in
      let (after, all) = closing-gone order n1 (close-IsOwned k r n here o) in
      let same : close_all (k ∷ order) n ≡ close_all order n1 =
        rw (close_all, each_peer, here) refl in
      subst (AllClosed (k ∷ order) n) (sym same) (
        (after.0, λ j q h. close-IsLeft r n (o.still_open k r here) j q (after.1 j q h)),
        (missing k n1 (close_all order n1) after.1 (close-gone_here k r n here o), all),
      )
]

module _ (fits : ℕ → Bool) where
  step : ℕ → Manager × Option Halt → (Manager × Option Halt) × Bool
  step r s = elim (try_close fits r s.0) [
    | err h ↦ ((s.0, some h), false)
    | ok n' ↦ ((n', none), true)
  ]

  close_network-close_all :
      (order : List Bytes) (n : Manager)
      → IsOwned n
      → AllFit fits n
      → length n.node_quit + length order ≤ quit_capacity
      → close_network fits order n ≡ (close_all order n, none)
  unfolding close_network close_all each_peer
  close_network-close_all [] n o all room = refl
  close_network-close_all (k ∷ order) n o all room = elim (Option-cases (load k n.peers)) [
    | inl absent ↦
        rw (close_network, close_all, each_peer, absent)
          (close_network-close_all order n o all (omega (arith, room)))
    | inr (r, here) ↦
        let first = o.still_open k r here in
        let through = try_close-AllFit fits r n first all (omega (arith, room)) in
        let less = close-IsSmaller r n first in
        rw (close_network, close_all, each_peer, here, through)
          (close_network-close_all order (close r n) (close-IsOwned k r n here o)
            (λ j c h. all j c (less.0 j c h)) (omega (arith, less.1, room)))
  ]

  -- `Close` of the network closes the clients that `Range` visits without a panic and without waiting,
  -- and leaves no client, no connection and no streams under their keys; if the tables are in sync, each
  -- client is open, has an address, and has the ID that it is stored under, the connections are of the
  -- type that the node's own scheme asks for, and `nodeQuit` has room for as many clients as are visited.
  pub close_network-IsGone :
      (order : List Bytes) (n : Manager)
      → IsOwned n
      → AllFit fits n
      → length n.node_quit + length order ≤ quit_capacity
      → ((close_network fits order n).1 ≡ none) × All (IsGone (close_network fits order n).0) order
  close_network-IsGone order n o all room =
      let done = close_network-close_all order n o all room in
      let (after, gone) = closing-gone order n o in
      subst (λ (s : Manager × Option Halt). (s.1 ≡ none) × All (IsGone s.0) order) (sym done)
        (
          refl,
          All-map (λ k. has k (close_all order n).peers ≡ false) (IsGone (close_all order n))
              (λ k. IsSync-IsGone k (close_all order n) after.0.in_sync) order gone,
        )
