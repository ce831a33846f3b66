-- ===== src/Access/Tests.antt =====
-- Requests at the network check. An address is its first code point, a network the only address in it.
use parcel_explorer.Prelude.{
  ℕ, ◌≡◌, refl, true, false, Text, codes, Option, none, some, [], ◌∷◌, CharTests, strip, ◌==◌,
}
use parcel_explorer.Access.{
  Addresses, AccessConfig, Request, passed, refused, before_comma, is_in_any, resolve_client_ip,
  ensure_internal_network,
}
use parcel_explorer.Access.Allowed.{IsClientOf, ensure_internal_network-passed}

abbrev first_code : Text → Option ℕ
first_code [] = none
first_code (c ∷ text) = some c

abbrev ip : Addresses ℕ ℕ
ip = record { ip_address = first_code; contains = λ network address. network == address }

abbrev chars : CharTests
chars = record { is_space = λ c. c == 32; is_digit = λ c. false }

-- the office is "7", and the proxy "9"
abbrev config : AccessConfig ℕ
config = record {
  admin_enabled = true;
  allowed_ip_networks = 55 ∷ [];
  trust_proxy_headers = true;
  trusted_proxy_networks = 57 ∷ [];
}

abbrev through_proxy : Request
through_proxy = record { client = some (codes "9"); forwarded_for = some (codes " 7, 1") }

-- the header of a peer that is no proxy does not count
spoofed :
    ensure_internal_network ip chars config
      (record { client = some (codes "1"); forwarded_for = some (codes "7") })
    ≡ refused 403 "관리자 페이지는 내부 행정망에서만 접근 가능합니다."
unfolding ensure_internal_network resolve_client_ip before_comma strip
spoofed = refl

proxy_passes : ensure_internal_network ip chars config through_proxy ≡ passed tt
unfolding ensure_internal_network resolve_client_ip before_comma strip
proxy_passes = refl

ensure_internal_network-passed_example :
    (true ≡ true)
    × ((address : ℕ) × (is_in_any ip config.allowed_ip_networks address ≡ true)
        × IsClientOf ip chars config through_proxy address)
ensure_internal_network-passed_example =
    ensure_internal_network-passed ip chars config through_proxy proxy_passes
