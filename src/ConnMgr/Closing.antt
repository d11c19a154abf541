-- ===== src/ConnMgr/Closing.antt =====
-- network/client.go: what can keep `RemoveEntries`, and so `Close`, from getting through.
use carrier.Prelude.{
  ℕ, suc, ◌+◌, ◌≤◌, ◌≡◌, refl, ap, sym, ◌∙◌, subst, arith, Bool, true, false, [], ◌∷◌, Option, none,
  some, Bytes, bytes_eq, ltb, length, length-append, if◌then◌else◌, Option-cases, inl, inr,
}
use carrier.Prelude.Table.{load, load-delete}
use carrier.ConnMgr.State.{ConnState, Manager}
use carrier.ConnMgr.Operations.{
  update_conn_state, forget, forget_peer, forget_address, remove_entries, close, client_peer_id,
  client_address,
}
use carrier.ConnMgr.Lifecycle.{shut, close-first}
use carrier.Wire.Result.{Result, ok, err}

-- A type assertion on a connection that panics, or a send on `nodeQuit` that waits for a reader.
pub data Halt : Type 0 where
  wrong_conn quit_full : Halt

-- `nodeQuit` is made by `Build`.
abbrev pub quit_capacity : ℕ
quit_capacity = 128

-- `fits` tells the connections that have the type which the scheme of the node's own address asks for.
module _ (fits : ℕ → Bool) where
  unfoldable pub address_halts : Bytes → Manager → Option Halt
  unfolding load
  address_halts address n = elim (load address n.connections) [
    | none ↦ none
    | some c ↦ if fits c.conn then none else some wrong_conn
  ]

  unfoldable pub removal_halts : ℕ → Manager → Option Halt
  unfolding load address_halts forget_peer client_peer_id client_address
  removal_halts r n =
      let c = n.clients r in
      let id = client_peer_id c in
      elim (client_address c) [
        | [] ↦ none
        | b ∷ address ↦ elim (load id n.connections) [
          | none ↦ address_halts (b ∷ address) n
          | some s ↦
              if fits s.conn
              then if ltb (length n.node_quit) quit_capacity
                then address_halts (b ∷ address) (forget_peer id c.pub_key n)
                else some quit_full
              else some wrong_conn
        ]
      ]

  -- `Close`
  unfoldable pub try_close : ℕ → Manager → Result Halt Manager
  unfolding removal_halts close
  try_close r n =
      if (n.clients r).closed
      then ok n
      else elim (removal_halts r n) [ none ↦ ok (close r n) | some h ↦ err h ]

-- Every connection is of the type that the node's own scheme asks for.
abbrev pub AllFit : (ℕ → Bool) → Manager → Type 0
AllFit fits n = (k : Bytes) (c : ConnState) → load k n.connections ≡ some c → fits c.conn ≡ true

-- No connection is new, and at most one client has quit.
abbrev IsSmaller : ℕ → Manager → Manager → Type 0
IsSmaller more n n' =
    ((k : Bytes) (c : ConnState) → load k n'.connections ≡ some c → load k n.connections ≡ some c)
    × (length n'.node_quit ≤ length n.node_quit + more)

forget_peer-IsSmaller : (key id : Bytes) (n : Manager) → IsSmaller 1 n (forget_peer key id n)
unfolding forget_peer forget update_conn_state
forget_peer-IsSmaller key id n = (
  λ k c h. ground (arith, load-delete key k n.connections),
  ground (arith, length-append n.node_quit (id ∷ [])),
)

forget_address-IsSmaller : (key : Bytes) (n : Manager) → IsSmaller 0 n (forget_address key n)
unfolding forget_address forget update_conn_state
forget_address-IsSmaller key n =
    (λ k c h. ground (arith, load-delete key k n.connections), ground arith)

remove_entries-IsSmaller : (r : ℕ) (n : Manager) → IsSmaller 1 n (remove_entries r n)
unfolding remove_entries
remove_entries-IsSmaller r n = go (client_address (n.clients r))
  where
    go :
        (address : Bytes)
        → IsSmaller 1 n (elim address as (λ a. Manager) [
          | [] ↦ n
          | b ∷ rest ↦
              forget_address
                (b ∷ rest)
                (forget_peer (client_peer_id (n.clients r)) (n.clients r).pub_key n)
        ])
    go [] = (λ k c h. h, omega arith)
    go (b ∷ rest) =
        let peer = forget_peer-IsSmaller (client_peer_id (n.clients r)) (n.clients r).pub_key n in
        let address =
          forget_address-IsSmaller (b ∷ rest)
            (forget_peer (client_peer_id (n.clients r)) (n.clients r).pub_key n) in
        (λ k c h. peer.0 k c (address.0 k c h), omega (arith, peer.1, address.1))

pub close-IsSmaller :
    (r : ℕ) (n : Manager) → (n.clients r).closed ≡ false → IsSmaller 1 n (close r n)
close-IsSmaller r n first =
    subst (IsSmaller 1 n) (sym (close-first r n first)) (remove_entries-IsSmaller r (shut r n))

module _ (fits : ℕ → Bool) where
  address_halts-AllFit :
      (address : Bytes) (n : Manager) → AllFit fits n → address_halts fits address n ≡ none
  unfolding address_halts
  address_halts-AllFit address n all = elim (Option-cases (load address n.connections)) [
    | inl absent ↦ rw (address_halts, absent) refl
    | inr (c, here) ↦ rw (address_halts, here, all address c here) refl
  ]

  removal_halts-AllFit :
      (r : ℕ) (n : Manager)
      → AllFit fits n
      → suc (length n.node_quit) ≤ quit_capacity
      → removal_halts fits r n ≡ none
  unfolding removal_halts
  removal_halts-AllFit r n all room = go (client_address (n.clients r))
    where
      id : Bytes
      id = client_peer_id (n.clients r)

      key : Bytes
      key = (n.clients r).pub_key

      there :
          (o : Option ConnState) (b : ℕ) (rest : Bytes)
          → ((c : ConnState) → o ≡ some c → fits c.conn ≡ true)
          → (elim o as (λ x. Option Halt) [
            | none ↦ address_halts fits (b ∷ rest) n
            | some s ↦
                if fits s.conn
                then if ltb (length n.node_quit) quit_capacity
                  then address_halts fits (b ∷ rest) (forget_peer id key n)
                  else some quit_full
                else some wrong_conn
          ])
            ≡ none
      there none b rest one = address_halts-AllFit (b ∷ rest) n all
      there (some c) b rest one =
          let less : ltb (length n.node_quit) quit_capacity ≡ true = ground (arith, room) in
          let left = forget_peer-IsSmaller id key n in
          rw (one c refl, less)
            (address_halts-AllFit (b ∷ rest) (forget_peer id key n)
              (λ k d h. all k d (left.0 k d h)))

      go :
          (address : Bytes)
          → (elim address as (λ a. Option Halt) [
            | [] ↦ none
            | b ∷ rest ↦ elim (load id n.connections) as (λ x. Option Halt) [
              | none ↦ address_halts fits (b ∷ rest) n
              | some s ↦
                  if fits s.conn
                  then if ltb (length n.node_quit) quit_capacity
                    then address_halts fits (b ∷ rest) (forget_peer id key n)
                    else some quit_full
                  else some wrong_conn
            ]
          ])
            ≡ none
      go [] = refl
      go (b ∷ rest) = there (load id n.connections) b rest (λ c h. all id c h)

  -- Where the connections are of the type asked for, and `nodeQuit` has room, `Close` gets through.
  pub try_close-AllFit :
      (r : ℕ) (n : Manager)
      → (n.clients r).closed ≡ false
      → AllFit fits n
      → suc (length n.node_quit) ≤ quit_capacity
      → try_close fits r n ≡ ok (close r n)
  unfolding try_close
  try_close-AllFit r n first all room =
      let outcome : Option Halt → Result Halt Manager =
        λ o. elim o as (λ x. Result Halt Manager) [ none ↦ ok (close r n) | some h ↦ err h ] in
      ap (λ b. if b then ok n else outcome (removal_halts fits r n)) first
      ∙ ap outcome (removal_halts-AllFit r n all room)
