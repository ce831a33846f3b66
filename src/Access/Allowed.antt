-- ===== src/Access/Allowed.antt =====
-- Who passes the network check.
use parcel_explorer.Prelude.{
  ◌≡◌, refl, ◌⊎◌, inl, inr, true, Text, Option, none, some, [], ◌∷◌, CharTests, strip, arith,
  Bool-cases, Option-cases,
}
use parcel_explorer.Access.{
  Addresses, AccessConfig, Request, Checked, passed, refused, before_comma, is_in_any, hop_or,
  from_header, from_peer, resolve_client_ip, check_allowed, ensure_internal_network,
}

module _ {A N : Type 0} (ip : Addresses A N) (chars : CharTests) (config : AccessConfig N) where
  -- the address that the check goes by: the peer's own, or the first hop that a trusted proxy names
  abbrev pub IsClientOf : Request → A → Type 0
  IsClientOf request address =
      (host : Text) × (peer : A) × (request.client ≡ some host)
      × (ip.ip_address host ≡ some peer)
      × ((address ≡ peer)
          ⊎ ((config.trust_proxy_headers ≡ true)
              × (is_in_any ip config.trusted_proxy_networks peer ≡ true)
              × ((header : Text) × (request.forwarded_for ≡ some header)
                  × (ip.ip_address (strip chars (before_comma header)) ≡ some address))))

  header_cases :
      (peer address : A) (forwarded_for : Option Text)
      → from_header ip chars peer forwarded_for ≡ passed address
      → (address ≡ peer)
        ⊎ ((header : Text) × (forwarded_for ≡ some header)
            × (ip.ip_address (strip chars (before_comma header)) ≡ some address))
  header_cases peer address none e = inl (ground arith)
  header_cases peer address (some []) e = inl (ground arith)
  header_cases peer address (some (c ∷ header)) e =
      go (strip chars (before_comma (c ∷ header))) refl e
    where
      go :
          (hop : Text)
          → strip chars (before_comma (c ∷ header)) ≡ hop
          → hop_or ip peer hop ≡ passed address
          → (address ≡ peer)
            ⊎ ((h : Text) × (some (c ∷ header) ≡ some h)
                × (ip.ip_address (strip chars (before_comma h)) ≡ some address))
      go [] s h = inl (ground arith)
      go (d ∷ hop) s h = elim (Option-cases (ip.ip_address (d ∷ hop))) [
        | inl n ↦ absurd (ground (arith, n))
        | inr (a, n) ↦ inr (c ∷ header, refl, ground (arith, n, s))
      ]

  peer_cases :
      (peer address : A) (forwarded_for : Option Text)
      → from_peer ip chars config forwarded_for (some peer) ≡ passed address
      → (address ≡ peer)
        ⊎ ((config.trust_proxy_headers ≡ true)
            × (is_in_any ip config.trusted_proxy_networks peer ≡ true)
            × ((header : Text) × (forwarded_for ≡ some header)
                × (ip.ip_address (strip chars (before_comma header)) ≡ some address)))
  peer_cases peer address forwarded_for e = elim (Bool-cases config.trust_proxy_headers) [
    | inr t ↦ inl (ground (arith, t))
    | inl t ↦ elim (Bool-cases (is_in_any ip config.trusted_proxy_networks peer)) [
      | inr p ↦ inl (ground (arith, t, p))
      | inl p ↦
          let read : from_header ip chars peer forwarded_for ≡ passed address =
            ground (arith, t, p) in
          elim (header_cases peer address forwarded_for read) [
            | inl same ↦ inl same
            | inr named ↦ inr (t, p, named)
          ]
    ]
  ]

  allowed_cases :
      (r : Checked A)
      → check_allowed ip config r ≡ passed tt
      → (address : A) × (r ≡ passed address)
        × (is_in_any ip config.allowed_ip_networks address ≡ true)
  allowed_cases (refused status detail) e = absurd (ground arith)
  allowed_cases (passed address) e =
      elim (Bool-cases (is_in_any ip config.allowed_ip_networks address)) [
        | inl a ↦ (address, refl, a)
        | inr a ↦ absurd (ground (arith, a))
      ]

  peer_allowed :
      (request : Request) (host : Text) (peer : Option A)
      → request.client ≡ some host
      → ip.ip_address host ≡ peer
      → check_allowed ip config (from_peer ip chars config request.forwarded_for peer) ≡ passed tt
      → (address : A) × (is_in_any ip config.allowed_ip_networks address ≡ true)
        × IsClientOf request address
  peer_allowed request host none c i e = absurd (ground arith)
  peer_allowed request host (some peer) c i e =
      let (address, r, a) =
        allowed_cases (from_peer ip chars config request.forwarded_for (some peer)) e in
      (address, a, (host, peer, c, i, peer_cases peer address request.forwarded_for r))

  -- A request that passes comes while the administrator's pages are enabled, and from a client whose
  -- address is in an allowed network: the address of the peer itself, or, only if proxy headers are
  -- trusted and the peer is in a trusted network, the first entry of its header.
  pub ensure_internal_network-passed :
      (request : Request)
      → ensure_internal_network ip chars config request ≡ passed tt
      → (config.admin_enabled ≡ true)
        × ((address : A) × (is_in_any ip config.allowed_ip_networks address ≡ true)
            × IsClientOf request address)
  unfolding ensure_internal_network resolve_client_ip
  ensure_internal_network-passed request e = elim (Bool-cases config.admin_enabled) [
    | inr d ↦ absurd (ground (arith, d))
    | inl d ↦ elim (Option-cases request.client) [
      | inl c ↦ absurd (ground (arith, d, c))
      | inr (host, c) ↦
          let checked : check_allowed ip config
                (from_peer ip chars config request.forwarded_for (ip.ip_address host))
              ≡ passed tt =
            ground (arith, d, c) in
          (d, peer_allowed request host (ip.ip_address host) c refl checked)
    ]
  ]
