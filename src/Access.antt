-- ===== src/Access.antt =====
-- The network check of app/dependencies.py before every route of the administrator. `A` stands for IP
-- addresses and `N` for networks of Python's `ipaddress`.
mod Allowed
mod Tests
use parcel_explorer.Prelude.{
  ℕ, String, Text, Bool, true, false, not, ◌&&◌, ◌||◌, ◌==◌, Option, none, some, List, [], ◌∷◌,
  CharTests, strip, if◌then◌else◌,
}

-- `ip_address` is `none` where it raises `ValueError`; `contains` is `ip in network`.
pub record Addresses (A N : Type 0) : Type 0 where
  pub ip_address : Text → Option A
  pub contains : N → A → Bool

pub record AccessConfig (N : Type 0) : Type 0 where
  pub admin_enabled : Bool
  pub allowed_ip_networks : List N
  pub trust_proxy_headers : Bool
  pub trusted_proxy_networks : List N

-- `request.client.host`, and the header `x-forwarded-for`
pub record Request : Type 0 where
  pub client : Option Text
  pub forwarded_for : Option Text

-- a value, or an `HTTPException` with its status
pub data Checked (A : Type 0) : Type 0 where
  passed : A → Checked A
  refused : ℕ → String → Checked A

-- text.split(",")[0]
unfoldable pub before_comma : Text → Text
before_comma [] = []
before_comma (c ∷ text) = let rest = before_comma text in if c == 44 then [] else c ∷ rest

module _ {A N : Type 0} (ip : Addresses A N) where
  -- any(address in network for network in networks)
  abbrev pub is_in_any : List N → A → Bool
  is_in_any [] address = false
  is_in_any (network ∷ networks) address = ip.contains network address || is_in_any networks address

  abbrev pub parsed : String → Option A → Checked A
  parsed detail none = refused 403 detail
  parsed detail (some address) = passed address

  -- `peer_ip`, or what the first hop of the header says
  abbrev pub hop_or : A → Text → Checked A
  hop_or peer_ip [] = passed peer_ip
  hop_or peer_ip (c ∷ hop) = parsed "Invalid X-Forwarded-For IP" (ip.ip_address (c ∷ hop))

  -- what follows the checks of the peer
  abbrev pub from_header : CharTests → A → Option Text → Checked A
  from_header chars peer_ip none = passed peer_ip
  from_header chars peer_ip (some []) = passed peer_ip
  from_header chars peer_ip (some (c ∷ header)) =
      hop_or peer_ip (strip chars (before_comma (c ∷ header)))

  abbrev pub from_peer : CharTests → AccessConfig N → Option Text → Option A → Checked A
  from_peer chars config header none = refused 403 "Invalid Client IP"
  from_peer chars config header (some peer_ip) =
      if not config.trust_proxy_headers
      then passed peer_ip
      else if not (is_in_any config.trusted_proxy_networks peer_ip)
      then passed peer_ip
      else from_header chars peer_ip header

  unfoldable pub resolve_client_ip : CharTests → AccessConfig N → Request → Checked A
  resolve_client_ip chars config request = elim request.client [
    | none ↦ refused 403 "Client Unknown"
    | some host ↦ from_peer chars config request.forwarded_for (ip.ip_address host)
  ]

  abbrev pub check_allowed : AccessConfig N → Checked A → Checked (Unit {0})
  check_allowed config (refused status detail) = refused status detail
  check_allowed config (passed client_ip) =
      if not (is_in_any config.allowed_ip_networks client_ip)
      then refused 403 "관리자 페이지는 내부 행정망에서만 접근 가능합니다."
      else passed tt

  unfoldable pub ensure_internal_network : CharTests → AccessConfig N → Request → Checked (Unit {0})
  ensure_internal_network chars config request =
      if not config.admin_enabled then refused 404 "Not Found" else elim request.client [
        | none ↦ refused 403 "Client Unknown"
        | some _ ↦ check_allowed config (resolve_client_ip chars config request)
      ]
