-- ===== src/Proxy/Connecting.antt =====
-- network/components/proxy/tcp.go: the loops that try one proxy server after the other.
use carrier.Prelude.{ℕ, zero, suc, Bool, true, false, List, [], ◌∷◌, Bytes, length, if◌then◌else◌}
use carrier.Outcome.{Outcome, ok, panic}
use carrier.Proxy.Servers.{ProxyService, get_working_proxy_server, update_proxy_work_id}

-- How a start ended: disabled, connected, or with all servers tried.
pub data Started : Type 0 where
  disabled connected exhausted : Started

-- The service and the rest of the state afterwards, and the servers that were tried, in order.
pub record Attempt (S : Type 0) : Type 0 where
  pub result : Started
  pub service : ProxyService
  pub state : S
  pub tried : List (Bytes × Bytes)

abbrev pub after_server : {S : Type 0} → Bytes × Bytes → Outcome (Attempt S) → Outcome (Attempt S)
after_server s panic = panic
after_server s (ok a) = ok (record a { tried = s ∷ a.tried })

-- `reach` is `ConnectProxyServer`: whether it succeeds, or a panic of its own.
module _ {S : Type 0} (reach : Bytes × Bytes → S → Outcome (Bool × S)) where
  abbrev pub ended : Started → ProxyService → S → Outcome (Attempt S)
  ended result p s = ok (record { result = result; service = p; state = s; tried = [] })

  abbrev pub next_server :
      (ProxyService → S → Outcome (Attempt S))
      → ProxyService
      → Outcome (Bool × S)
      → Outcome (Attempt S)
  next_server rest p panic = panic
  next_server rest p (ok (true, s)) = ended connected p s
  next_server rest p (ok (false, s)) = elim (update_proxy_work_id p) [
    | panic ↦ panic
    | ok p' ↦ rest p' s
  ]

  -- The loop of `TcpComponentStartup` and `TcpComponentRestartUp`, of as many turns as there are servers.
  unfoldable pub connect_loop : ℕ → ProxyService → S → Outcome (Attempt S)
  unfolding get_working_proxy_server update_proxy_work_id
  connect_loop zero p s = ended exhausted p s
  connect_loop (suc turns) p s = elim (get_working_proxy_server p) [
    | panic ↦ panic
    | ok server ↦ after_server server (next_server (connect_loop turns) p (reach server s))
  ]

  -- `TcpComponentStartup`; `TcpComponentRestartUp` waits, besides, for the answer of the server.
  unfoldable pub tcp_component_startup : ProxyService → S → Outcome (Attempt S)
  unfolding connect_loop
  tcp_component_startup p s =
      if p.enable then connect_loop (length p.servers) p s else ended disabled p s
