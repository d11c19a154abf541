-- ===== src/Proxy/RoundRobin.antt =====
-- network/components/proxy/tcp.go: the proxy servers take turns.
use carrier.Prelude.{
  ℕ, zero, suc, ◌+◌, ◌-◌, ◌%◌, ◌^◌, ◌≤◌, ◌<◌, ◌≡◌, ◌≢◌, refl, ap, sym, ◌∙◌, subst, arith, Bool,
  true, false, [], ◌∷◌, Option, none, some, Bytes, ltb, length, get_elem?, get_elem?_total,
  if◌then◌else◌, Bool-cases, inl, inr, ◌⊎◌,
}
use native.Mathlib.Nat.{mod-eq_of_lt, mod_self}
use carrier.Outcome.{Outcome, ok, panic}
use carrier.Proxy.Servers.{
  ProxyServer, ProxyService, get_working_proxy_server, update_proxy_work_id, IsService,
}
use carrier.Proxy.Connecting.{
  disabled, connected, exhausted, Attempt, after_server, ended, next_server, connect_loop,
  tcp_component_startup,
}

-- The place `i` places after `w`, around a circle of `n`.
abbrev pub around : ℕ → ℕ → ℕ → ℕ
around n w i = if ltb (w + i) n then w + i else w + i - n

next_place : (w n : ℕ) → w < n → n < 2 ^ 16 → (w + 1) % 2 ^ 16 % suc (n - 1) ≡ around n w 1
next_place w n h few =
    let whole : suc (n - 1) ≡ n = omega (arith, h) in
    let small : (w + 1) % 2 ^ 16 ≡ w + 1 = omega (arith, h, few) in
    rw (whole, small)
      (elim (Bool-cases (ltb (w + 1) n)) [
        | inl before ↦ let b : w + 1 < n = ground arith in rw before (mod-eq_of_lt b)
        | inr last ↦
            let e : w + 1 ≡ n = ground (arith, h) in
            rw last (ap (λ k. k % n) e ∙ mod_self n ∙ omega (arith, e))
      ])

-- The next server, or the first after the last.
update_proxy_work_id_lem :
    (p : ProxyService)
    → IsService p
    → update_proxy_work_id p ≡ ok (record p { work_id = around (length p.servers) p.work_id 1 })
unfolding update_proxy_work_id
update_proxy_work_id_lem p v =
    let n = length p.servers in
    let some_servers : n % 2 ^ 16 ≡ suc (n - 1) = omega (arith, v.few, v.works) in
    rw (some_servers, update_proxy_work_id)
      (ap (λ w. ok (record p { work_id = w })) (next_place p.work_id n v.works v.few))

around_lt : (n w i : ℕ) → w < n → i ≤ n → around n w i < n
around_lt n w i h k = ground arith

around-around : (n w i : ℕ) → w < n → suc i ≤ n → around n (around n w 1) i ≡ around n w (suc i)
around-around n w i h k = ground arith

abbrev pair : ProxyServer → Bytes × Bytes
pair s = (s.ip, s.peer_id)

get_working_proxy_server_lem :
    (p : ProxyService) (s : ProxyServer)
    → p.enable ≡ true
    → get_elem? p.servers p.work_id ≡ some s
    → get_working_proxy_server p ≡ ok (pair s)
unfolding get_working_proxy_server
get_working_proxy_server_lem p s on here = rw (get_working_proxy_server, on, here) refl

-- Servers are tried in turn from the one in use on; a start that exhausts `turns` tried as many.
pub record IsTried {S : Type 0} (turns : ℕ) (p : ProxyService) (a : Attempt S) : Type 0 where
  pub in_turn :
      (i : ℕ) (s : ProxyServer)
      → i < length a.tried
      → get_elem? p.servers (around (length p.servers) p.work_id i) ≡ some s
      → get_elem? a.tried i ≡ some (pair s)
  pub most : length a.tried ≤ turns
  pub all : a.result ≡ exhausted → length a.tried ≡ turns
  pub enabled : a.result ≢ disabled
  pub servers : a.service.servers ≡ p.servers

around-zero : (n w : ℕ) → w < n → around n w 0 ≡ w
around-zero n w h = ground arith

advanced : ProxyService → ProxyService
advanced p = record p { work_id = around (length p.servers) p.work_id 1 }

-- One server more, in front of those that were tried after it.
cons-IsTried :
    {S : Type 0} (turns : ℕ) (p : ProxyService) (server : ProxyServer) (a : Attempt S)
    → p.work_id < length p.servers
    → suc turns ≤ length p.servers
    → get_elem? p.servers p.work_id ≡ some server
    → IsTried turns (advanced p) a
    → IsTried (suc turns) p (record a { tried = pair server ∷ a.tried })
unfolding advanced
cons-IsTried turns p server a h k here t = record {
  in_turn = turn;
  most = omega (arith, t.most);
  all = λ e. ap suc (t.all e);
  enabled = t.enabled;
  servers = t.servers;
}
  where
    turn :
        (i : ℕ) (s : ProxyServer)
        → i < suc (length a.tried)
        → get_elem? p.servers (around (length p.servers) p.work_id i) ≡ some s
        → get_elem? (pair server ∷ a.tried) i ≡ some (pair s)
    turn zero s l e =
        let same : some server ≡ some s =
          sym here
          ∙ ap (get_elem? p.servers) (sym (around-zero (length p.servers) p.work_id h))
          ∙ e in
        ap
          (λ (o : Option ProxyServer). elim o as (λ x. Option (Bytes × Bytes)) [
            | none ↦ none
            | some q ↦ some (pair q)
          ])
          same
    turn (suc i) s l e = t.in_turn i s (omega (arith, l)) (
        ap (get_elem? p.servers)
          (around-around (length p.servers) p.work_id i h (omega (arith, l, t.most, k)))
        ∙ e)

stopped-IsTried :
    {S : Type 0} (p : ProxyService) (s : S)
    → IsTried 0 p (record { result = exhausted; service = p; state = s; tried = [] })
stopped-IsTried p s = record {
  in_turn = λ i q l e. absurd (omega arith);
  most = omega arith;
  all = λ e. refl;
  enabled = λ e. cc;
  servers = refl;
}

-- A start that succeeds at once.
connected-IsTried :
    {S : Type 0} (turns : ℕ) (p : ProxyService) (s : S)
    → IsTried turns (advanced p) (record { result = connected; service = p; state = s; tried = [] })
unfolding advanced
connected-IsTried turns p s = record {
  in_turn = λ i q l e. absurd (omega arith);
  most = omega arith;
  all = λ e. cc;
  enabled = λ e. cc;
  servers = refl;
}

-- The servers were tried in turn, or one of the calls panicked.
abbrev pub IsLoop :
    {S : Type 0}
    → (Bytes × Bytes → S → Outcome (Bool × S))
    → ℕ
    → ProxyService
    → Outcome (Attempt S)
    → Type 0
IsLoop {S} reach turns p o =
    ((a : Attempt S) × (o ≡ ok a) × IsTried turns p a)
    ⊎ ((o ≡ panic) × ((server : Bytes × Bytes) × (s : S) × (reach server s ≡ panic)))

reached-cases : {S : Type 0} (r : Outcome (Bool × S)) → (r ≡ panic) ⊎ ((b : Bool × S) × (r ≡ ok b))
reached-cases panic = inl refl
reached-cases (ok b) = inr (b, refl)

module _ {S : Type 0} (reach : Bytes × Bytes → S → Outcome (Bool × S)) where
  after-IsLoop :
      (turns : ℕ) (p : ProxyService) (server : ProxyServer) (s0 : S) (r : Outcome (Bool × S))
      → reach (pair server) s0 ≡ r
      → IsService p
      → suc turns ≤ length p.servers
      → get_elem? p.servers p.work_id ≡ some server
      → ((s : S) → IsLoop reach turns (advanced p) (connect_loop reach turns (advanced p) s))
      → IsLoop reach
          (suc turns)
          p
          (after_server (pair server) (next_server reach (connect_loop reach turns) p r))
  unfolding advanced
  after-IsLoop turns p server s0 panic e0 v h here later = inr (refl, (pair server, s0, e0))
  after-IsLoop turns p server s0 (ok (true, s)) e0 v h here later =
      let a : Attempt S = record { result = connected; service = p; state = s; tried = [] } in
      inl (
        record a { tried = pair server ∷ [] },
        refl,
        cons-IsTried turns p server a v.works h here (connected-IsTried turns p s),
      )
  after-IsLoop turns p server s0 (ok (false, s)) e0 v h here later =
      let passed : after_server (pair server)
            (next_server reach (connect_loop reach turns) p (ok (false, s)))
          ≡ after_server (pair server) (connect_loop reach turns (advanced p) s) =
        ap
          (λ o. after_server (pair server) (elim o as (λ x. Outcome (Attempt S)) [
            | panic ↦ panic
            | ok p' ↦ connect_loop reach turns p' s
          ]))
          (update_proxy_work_id_lem p v) in
      elim (later s) [
        | inl (a, e, t) ↦ inl (
          record a { tried = pair server ∷ a.tried },
          passed ∙ ap (after_server (pair server)) e,
          cons-IsTried turns p server a v.works h here t,
        )
        | inr (e, crash) ↦ inr (passed ∙ ap (after_server (pair server)) e, crash)
      ]

  connect_loop-IsLoop :
      (turns : ℕ) (p : ProxyService) (s : S)
      → IsService p
      → p.enable ≡ true
      → turns ≤ length p.servers
      → IsLoop reach turns p (connect_loop reach turns p s)
  unfolding connect_loop advanced
  connect_loop-IsLoop zero p s v on h =
      inl (
        record { result = exhausted; service = p; state = s; tried = [] },
        refl,
        stopped-IsTried p s,
      )
  connect_loop-IsLoop (suc turns) p s v on h =
      let (server, here) = get_elem?_total p.servers p.work_id v.works in
      let v' : IsService (advanced p) = record {
        few = v.few;
        works = around_lt (length p.servers) p.work_id 1 v.works (omega (arith, h));
      } in
      let opened : connect_loop reach (suc turns) p s
          ≡ after_server (pair server)
              (next_server reach (connect_loop reach turns) p (reach (pair server) s)) =
        rw (get_working_proxy_server_lem p server on here, connect_loop) refl in
      subst (IsLoop reach (suc turns) p) (sym opened) (
        after-IsLoop turns p server s (reach (pair server) s) refl v h here
          (λ s'. connect_loop-IsLoop turns (advanced p) s' v' on (omega (arith, h))))

  -- With the proxy mode enabled, fewer than 65536 servers, and one of them in use, whatever the calls
  -- of `ConnectProxyServer` do: unless one of them panics, the start ends. It has tried the servers in
  -- turn from the one in use on, around the list, none of them twice; and if it connects to none, it has
  -- tried all.
  pub tcp_component_startup-IsLoop :
      (p : ProxyService) (s : S)
      → IsService p
      → p.enable ≡ true
      → IsLoop reach (length p.servers) p (tcp_component_startup reach p s)
  unfolding tcp_component_startup
  tcp_component_startup-IsLoop p s v on =
      let opened : tcp_component_startup reach p s ≡ connect_loop reach (length p.servers) p s =
        ap (λ b. if b then connect_loop reach (length p.servers) p s else ended reach disabled p s)
          on in
      subst (IsLoop reach (length p.servers) p) (sym opened)
        (connect_loop-IsLoop (length p.servers) p s v on (omega arith))
