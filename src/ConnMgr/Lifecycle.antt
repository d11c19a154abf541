-- ===== src/ConnMgr/Lifecycle.antt =====
-- network/client.go and network/network.go: what `Close` and `getOrSetPeerClient` do to the tables
-- from one call to the next.
use carrier.Prelude.{
  ℕ, subst, ◌≡◌, ◌≢◌, refl, sym, ◌∙◌, arith, true, false, [], ◌∷◌, none, Bytes, bytes_eq, beq_refl,
  Bool-cases, inl, inr,
}
use carrier.Prelude.Table.{has, has-delete, load-store, load-store_self}
use carrier.ConnMgr.State.{unreachable, Manager, put_client}
use carrier.ConnMgr.Operations.{
  update_conn_state, forget, forget_peer, forget_address, remove_entries, close, client_address,
  client_peer_id, client_exist, get_real_conn_state,
}

-- `RemoveEntries` leaves the clients as they are.
forget_address-clients : (key : Bytes) (n : Manager) → (forget_address key n).clients ≡ n.clients
unfolding forget_address forget update_conn_state
forget_address-clients key n = ground arith

forget_peer-clients :
    (key client_id : Bytes) (n : Manager) → (forget_peer key client_id n).clients ≡ n.clients
unfolding forget_peer forget update_conn_state
forget_peer-clients key client_id n = ground arith

pub remove_entries-clients : (r : ℕ) (n : Manager) → (remove_entries r n).clients ≡ n.clients
unfolding remove_entries
remove_entries-clients r n = go (client_address (n.clients r))
  where
    go :
        (address : Bytes)
        → (elim address as (λ a. Manager) [
          | [] ↦ n
          | b ∷ rest ↦
              forget_address
                (b ∷ rest)
                (forget_peer (client_peer_id (n.clients r)) (n.clients r).pub_key n)
        ]).clients
          ≡ n.clients
    go [] = refl
    go (b ∷ rest) =
        forget_address-clients (b ∷ rest)
          (forget_peer (client_peer_id (n.clients r)) (n.clients r).pub_key n)
        ∙ forget_peer-clients (client_peer_id (n.clients r)) (n.clients r).pub_key n

-- The client as `Close` marks it.
abbrev pub shut : ℕ → Manager → Manager
shut r n = record n {
  clients = put_client r (record (n.clients r) { closed = true; stream_closed = true }) n.clients;
}

close-closed : (r : ℕ) (n : Manager) → ((close r n).clients r).closed ≡ true
unfolding close
close-closed r n = elim (Bool-cases (n.clients r).closed) [
  | inl again ↦ rw (again, close) again
  | inr first ↦ ground (arith, remove_entries-clients r (shut r n))
]

close_again : (q : ℕ) (m : Manager) → (m.clients q).closed ≡ true → close q m ≡ m
unfolding close
close_again q m e = rw e refl

-- `Close` is idempotent: the second call changes nothing, so the entries of a client are removed
-- at most once.
pub close-close : (r : ℕ) (n : Manager) → close r (close r n) ≡ close r n
close-close r n = close_again r (close r n) (close-closed r n)

-- Neither the client nor the connection of a key is known.
abbrev Gone : Bytes → Manager → Type 0
Gone k n = (client_exist k n ≡ false) × (get_real_conn_state k n ≡ none)

forget_peer-Gone :
    (k client_id : Bytes) (n : Manager)
    → has k n.connections ≡ true
    → Gone k (forget_peer k client_id n)
unfolding forget_peer forget update_conn_state client_exist get_real_conn_state
forget_peer-Gone k client_id n there = ground (
  arith,
  has-delete k k n.peers,
  has-delete k k n.connections,
  beq_refl k,
  load-store_self k unreachable n.conn_states,
)

forget_address-Gone : (k j : Bytes) (n : Manager) → Gone k n → Gone k (forget_address j n)
unfolding forget_address forget update_conn_state client_exist get_real_conn_state
forget_address-Gone k j n gone = ground (
  arith,
  gone,
  has-delete j k n.peers,
  has-delete j k n.connections,
  load-store j k unreachable n.conn_states,
)

remove_entries-Gone :
    (r : ℕ) (n : Manager)
    → client_address (n.clients r) ≢ []
    → has (client_peer_id (n.clients r)) n.connections ≡ true
    → Gone (client_peer_id (n.clients r)) (remove_entries r n)
unfolding remove_entries
remove_entries-Gone r n address there = go (client_address (n.clients r)) address
  where
    go :
        (a : Bytes)
        → a ≢ []
        → Gone (client_peer_id (n.clients r)) (elim a as (λ a. Manager) [
          | [] ↦ n
          | b ∷ rest ↦
              forget_address
                (b ∷ rest)
                (forget_peer (client_peer_id (n.clients r)) (n.clients r).pub_key n)
        ])
    go [] some_address = absurd (some_address refl)
    go (b ∷ rest) some_address =
        forget_address-Gone (client_peer_id (n.clients r)) (b ∷ rest)
          (forget_peer (client_peer_id (n.clients r)) (n.clients r).pub_key n)
          (forget_peer-Gone (client_peer_id (n.clients r)) (n.clients r).pub_key n there)

client_peer_id-shut :
    (r : ℕ) (n : Manager) → client_peer_id ((shut r n).clients r) ≡ client_peer_id (n.clients r)
unfolding client_peer_id
client_peer_id-shut r n = ground arith

client_address-shut :
    (r : ℕ) (n : Manager) → client_address ((shut r n).clients r) ≡ client_address (n.clients r)
unfolding client_address
client_address-shut r n = ground arith

pub close-first :
    (r : ℕ) (n : Manager) → (n.clients r).closed ≡ false → close r n ≡ remove_entries r (shut r n)
unfolding close
close-first r n first = rw first refl

-- The first `Close` of a client whose entries stand under its `PeerID` removes them: no client, no
-- connection and no streams are left under that key, and its state is unreachable.
pub close-gone :
    (r : ℕ) (n : Manager)
    → (n.clients r).closed ≡ false
    → client_address (n.clients r) ≢ []
    → has (client_peer_id (n.clients r)) n.connections ≡ true
    → (client_exist (client_peer_id (n.clients r)) (close r n) ≡ false)
      × (get_real_conn_state (client_peer_id (n.clients r)) (close r n) ≡ none)
close-gone r n first address there = rw (close-first r n first) (
    subst (λ k. Gone k (remove_entries r (shut r n))) (client_peer_id-shut r n)
      (remove_entries-Gone r (shut r n)
        (λ none_left. address (sym (client_address-shut r n) ∙ none_left))
        (rw (client_peer_id-shut r n) there)))
