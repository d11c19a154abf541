-- ===== src/Proxy/Servers.antt =====
-- network/network.go: `ProxyService`, with the server that is in use.
use carrier.Prelude.{
  ℕ, zero, suc, ◌+◌, ◌%◌, ◌^◌, ◌<◌, Bool, List, [], none, some, Bytes, length, get_elem?,
  if◌then◌else◌,
}
use carrier.Outcome.{Outcome, ok, panic}

pub record ProxyServer : Type 0 where
  pub ip : Bytes
  pub peer_id : Bytes

-- `WorkID` is a `uint16`.
pub record ProxyService : Type 0 where
  pub enable : Bool
  pub servers : List ProxyServer
  pub work_id : ℕ

-- `GetWorkingProxyServer`
unfoldable pub get_working_proxy_server : ProxyService → Outcome (Bytes × Bytes)
get_working_proxy_server p =
    if p.enable
    then elim (get_elem? p.servers p.work_id) [ none ↦ panic | some s ↦ ok (s.ip, s.peer_id) ]
    else ok ([], [])

-- `UpdateProxyWorkID`: the remainder by `uint16(len(…))` panics where that is 0.
unfoldable pub update_proxy_work_id : ProxyService → Outcome ProxyService
update_proxy_work_id p = elim (length p.servers % 2 ^ 16) [
  | zero ↦ panic
  | suc k ↦ ok (record p { work_id = (p.work_id + 1) % 2 ^ 16 % suc k })
]

-- A service with a server in use.
pub record IsService (p : ProxyService) : Type 0 where
  pub few : length p.servers < 2 ^ 16
  pub works : p.work_id < length p.servers
