-- ===== src/Joining/Reached.antt =====
-- network/network.go: joining keeps the tables in sync.
use carrier.Prelude.{
  sym, ◌∙◌, ap, subst, ℕ, ◌+◌, ◌≡◌, ◌≢◌, refl, Bool, true, false, List, [], ◌∷◌, Option, none, some,
  Bytes, bytes_eq, if◌then◌else◌, Option-cases, Bool-cases, inl, inr,
}
use carrier.Prelude.Table.{load}
use carrier.Outcome.{Outcome, panic, ok}
use carrier.Lru.Cache.{Cache}
use carrier.Addresses.Unify.{Net}
use carrier.Addresses.Cached.{IsCoherent}
use carrier.Addresses.Filter.{filter_peers_lem}
use carrier.ConnMgr.State.{Outside, other, Manager, Reply, put_client}
use carrier.ConnMgr.Operations.{
  no_conn, get_or_set_peer_client, client_exist, connection_state_exists,
}
use carrier.ConnMgr.Sync.{IsSync}
use carrier.ConnMgr.Calls.{close-IsSync, get_or_set_peer_client-IsSync}
use carrier.ConnMgr.Writing.{write-IsSync}
use carrier.Telling.Tell.{Speaker, TellError, tell_by_addr}
use carrier.Telling.Sync.{send-keeps}
use carrier.Joining.Connect.{
  Meeting, JoinError, untold, no_pub_key, wait_bootstrap_success, drop_client, after_dial, greet,
  connect_proxy_server, waited, connect_peer, reconnect_peer, bootstrap_loop, bootstrap,
}

-- Addresses have schemes that the manager supports.
abbrev pub IsSupported : Outside → Type 0
IsSupported w = (a : Bytes) → w.protocol a ≢ some other

-- A meeting on such a network, whose other goroutines keep the tables in sync.
pub record IsOrderly (met : Meeting) : Type 0 where
  pub supported : IsSupported met.outside
  pub keeps : (n : Manager) → IsSync n → IsSync (met.others n)

wait-IsSync :
    (met : Meeting) (r : ℕ) (n : Manager)
    → IsOrderly met
    → IsSync n
    → IsSync (wait_bootstrap_success met r n).1
unfolding wait_bootstrap_success
wait-IsSync met r n o h = elim (Bool-cases met.answered) [
  | inl answered ↦ rw (wait_bootstrap_success, answered) (o.keeps n h)
  | inr silent ↦ rw (wait_bootstrap_success, silent) (close-IsSync r (met.others n) (o.keeps n h))
]

drop_client-IsSync : (key : Bytes) (n : Manager) → IsSync n → IsSync (drop_client key n)
unfolding drop_client
drop_client-IsSync key n h = elim (Option-cases (load key n.peers)) [
  | inl absent ↦ rw (absent, drop_client) h
  | inr (r, there) ↦
      let n1 : Manager = record n {
        clients = put_client r (record (n.clients r) { enable_backoff = false }) n.clients;
      } in
      rw (there, drop_client) (close-IsSync r n1 h)
]

module _ (s : Speaker) where
  after_dial-IsSync :
      (body : s.bodies.Body) (r : Reply ℕ × Manager) → IsSync r.1 → IsSync (after_dial s body r).1
  unfolding tell_by_addr
  after_dial-IsSync body (Reply.err e, n) h = h
  after_dial-IsSync body (Reply.ok r, n) h = go (tell_by_addr s false r (some body) n) (
      send-keeps s false IsSync n (n.clients r).address (some body) h
        (λ m. write-IsSync s.own s.is_net_conn s.sends (n.clients r).address m n h))
    where
      go :
          (told : Option TellError × Manager)
          → IsSync told.1
          → IsSync
              (elim told.0 as (λ x. (Option JoinError × Option ℕ) × Manager) [
                | none ↦ ((none, some r), told.1)
                | some e ↦ ((some (untold e), none), told.1)
              ]).1
      go (none, n') k = k
      go (some e, n') k = k

  greet-IsSync :
      (w : Outside) (body : s.bodies.Body) (address : Bytes) (n : Manager)
      → IsSupported w
      → IsSync n
      → IsSync (greet s w body address n).1
  unfolding greet
  greet-IsSync w body address n supported h =
      after_dial-IsSync body (get_or_set_peer_client w address [] no_conn n)
        (get_or_set_peer_client-IsSync w address [] no_conn n supported h)

  waited-IsSync :
      (met : Meeting) (r : (Option JoinError × Option ℕ) × Manager)
      → IsOrderly met
      → IsSync r.1
      → IsSync (waited s met r).1
  waited-IsSync met ((some e, r), n) o h = h
  waited-IsSync met ((none, none), n) o h = h
  waited-IsSync met ((none, some r), n) o h =
      go (wait_bootstrap_success met r n) (wait-IsSync met r n o h)
    where
      go :
          (w : Bool × Manager)
          → IsSync w.1
          → IsSync
              (if◌then◌else◌ {A = (Option JoinError × Bytes) × Manager} w.0
                ((none, (w.1.clients r).pub_key), w.1)
                ((some no_pub_key, []), w.1)).1
      go (true, n') k = k
      go (false, n') k = k

  pub connect_proxy_server-IsSync :
      (w : Outside) (request : s.bodies.Body) (address : Bytes) (n : Manager)
      → IsSupported w
      → IsSync n
      → IsSync (connect_proxy_server s w request address n).1
  unfolding connect_proxy_server
  connect_proxy_server-IsSync w request address n supported h =
      elim (Bool-cases (connection_state_exists address n)) [
        | inl there ↦ rw there h
        | inr new ↦ rw new (greet-IsSync w request address n supported h)
      ]

  connect_peer-IsSync :
      (met : Meeting) (ping : s.bodies.Body) (address : Bytes) (n : Manager)
      → IsOrderly met
      → IsSync n
      → IsSync (connect_peer s met ping address n).1
  unfolding connect_peer
  connect_peer-IsSync met ping address n o h =
      elim (Bool-cases (connection_state_exists address n)) [
        | inl there ↦ rw there h
        | inr new ↦ elim (Bool-cases (client_exist address n)) [
          | inl there ↦ rw (new, there) h
          | inr absent ↦
              rw (new, absent)
                (waited-IsSync met (greet s met.outside ping address n) o
                  (greet-IsSync met.outside ping address n o.supported h))
        ]
      ]

  bootstrap_loop-IsSync :
      (met : ℕ → Meeting) (ping : s.bodies.Body) (k : ℕ) (addresses : List Bytes) (n : Manager)
      → ((k : ℕ) → IsOrderly (met k))
      → IsSync n
      → IsSync (bootstrap_loop s met ping k addresses n).1
  unfolding bootstrap_loop
  bootstrap_loop-IsSync met ping k [] n o h = h
  bootstrap_loop-IsSync met ping k (address ∷ addresses) n o h =
      let greeted = greet s (met k).outside ping address n in
      bootstrap_loop-IsSync met ping (k + 1) addresses (waited s (met k) greeted).1 o (
        waited-IsSync (met k) greeted (o k)
          (greet-IsSync (met k).outside ping address n (o k).supported h))

  -- `Bootstrap` with any addresses, where it returns, `ConnectPeer`, `ReconnectPeer` and
  -- `ConnectProxyServer` keep the tables in sync, whether the peers are reached, answer, stay silent or
  -- are known already, on networks with supported schemes.
  pub bootstrap-IsSync :
      (net : Net) (cache : Cache Bytes) (met : ℕ → Meeting) (ping : s.bodies.Body)
      (addresses : List Bytes) (address : Bytes) (n : Manager) {ids : List Bytes} {n' : Manager}
      → IsCoherent net cache
      → ((k : ℕ) → IsOrderly (met k))
      → IsSync n
      → bootstrap s net cache met ping addresses n ≡ ok (ids, n')
      → IsSync n'
        × IsSync (connect_peer s (met 0) ping address n).1
        × IsSync (reconnect_peer s (met 0) ping address n).1
        × IsSync (connect_proxy_server s (met 0).outside ping address n).1
  unfolding bootstrap reconnect_peer
  bootstrap-IsSync net cache met ping addresses address n {ids} {n'} coherent o h done =
      let (peers, cache', filtered, c1, c2, c3) =
        filter_peers_lem net n.address addresses cache coherent in
      let loop = bootstrap_loop s met ping 0 peers n in
      let same : bootstrap s net cache met ping addresses n ≡ ok loop =
        rw (filtered, bootstrap) refl in
      let tables : ◌≡◌ {A = Outcome (List Bytes × Manager)} (ok loop) (ok (ids, n')) =
        sym same ∙ done in
      (
        subst IsSync
            (ap
              (λ (x : Outcome (List Bytes × Manager)). elim x as (λ y. Manager) [
                | ok r ↦ r.1
                | panic ↦ n
              ])
              tables)
            (bootstrap_loop-IsSync met ping 0 peers n o h),
        connect_peer-IsSync (met 0) ping address n (o 0) h,
        connect_peer-IsSync (met 0) ping address (drop_client address n) (o 0)
            (drop_client-IsSync address n h),
        connect_proxy_server-IsSync (met 0).outside ping address n (o 0).supported h,
      )
