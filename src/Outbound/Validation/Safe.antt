-- ===== src/Outbound/Validation/Safe.antt =====
-- Which URLs pass `validate_outbound_url` (agi_platform/outbound.py).
use agi_platform.Prelude.{
  ℕ, String, ◌==◌, List, [], ◌∷◌, true, false, Option, some, contains, All, ok, ◌≡◌, ◌≢◌, ◌↔◌, refl,
  arith, eq_iff, Bool-cases, Option-cases, Result-cases, inl, inr,
}
use agi_platform.Outbound.Policy.{
  unsafe_schemes, blocked_hosts, metadata_ips, OutboundPolicy, allows_domain,
}
use agi_platform.Outbound.Validation.{
  IpAddress, ParsedUrl, Libraries, port_of, is_blocked, check_addresses, validate_parsed,
  validate_outbound_url,
}
use agi_platform.Outbound.Validation.Parts.{
  IsAllowed, allows-IsAllowed, IsPort, IsPort-of_port_of, port_of-of_IsPort,
}

module _ (libraries : Libraries) where
  -- An address of the public network.
  pub record IsPublic (address : String) : Type 0 where
    pub ip : IpAddress
    pub parsed : libraries.ip_address address ≡ some ip
    pub no_metadata : contains address metadata_ips ≡ false
    pub not_private : ip.is_private ≡ false
    pub not_loopback : ip.is_loopback ≡ false
    pub not_link_local : ip.is_link_local ≡ false
    pub not_multicast : ip.is_multicast ≡ false
    pub not_reserved : ip.is_reserved ≡ false
    pub not_unspecified : ip.is_unspecified ≡ false

  -- A URL of an allowed scheme and host, all of whose addresses are public.
  pub record IsSafe (resolver : String → ℕ → Option (List String)) (policy : OutboundPolicy)
      (url : String) : Type 0 where
    pub parts : ParsedUrl
    pub parsed : libraries.urlparse url ≡ some parts
    pub safe_scheme : contains parts.scheme unsafe_schemes ≡ false
    pub allowed_scheme : contains parts.scheme policy.allowed_schemes ≡ true
    pub has_host : parts.hostname ≢ ""
    pub not_blocked : contains (libraries.strip_host parts.hostname) blocked_hosts ≡ false
    pub allowed_domain : IsAllowed policy.allowed_domains (libraries.strip_host parts.hostname)
    pub port : ℕ
    pub has_port : IsPort parts port
    pub addresses : List String
    pub resolved : resolver (libraries.strip_host parts.hostname) port ≡ some addresses
    pub public : All IsPublic addresses

  IsPublic-check :
      (address : String) (ip : IpAddress)
      → libraries.ip_address address ≡ some ip
      → is_blocked libraries address ip ≡ false
      → IsPublic address
  unfolding is_blocked
  IsPublic-check address ip parsed free = record {
    ip = ip;
    parsed = parsed;
    no_metadata = ground (arith, free);
    not_private = ground (arith, free);
    not_loopback = ground (arith, free);
    not_link_local = ground (arith, free);
    not_multicast = ground (arith, free);
    not_reserved = ground (arith, free);
    not_unspecified = ground (arith, free);
  }

  All-IsPublic :
      (addresses : List String)
      → check_addresses libraries addresses ≡ ok tt
      → All IsPublic addresses
  unfolding check_addresses
  All-IsPublic [] h = tt
  All-IsPublic (address ∷ addresses) h = elim (Option-cases (libraries.ip_address address)) [
    | inl bad ↦ let h' = rw bad at h in cc
    | inr (ip, parsed) ↦ elim (Bool-cases (is_blocked libraries address ip)) [
      | inl blocked ↦ let h' = rw (parsed, blocked) at h in cc
      | inr free ↦
          (IsPublic-check address ip parsed free, All-IsPublic addresses (rw (parsed, free) at h))
    ]
  ]

  check-IsPublic :
      (addresses : List String)
      → All IsPublic addresses
      → check_addresses libraries addresses ≡ ok tt
  unfolding check_addresses is_blocked
  check-IsPublic [] a = refl
  check-IsPublic (address ∷ addresses) (p, a) =
      rw
        (
          p.parsed, p.no_metadata, p.not_private, p.not_loopback, p.not_link_local, p.not_multicast,
          p.not_reserved, p.not_unspecified,
        )
        (check-IsPublic addresses a)

  module _ (resolver : String → ℕ → Option (List String)) (policy : OutboundPolicy)
      (url : String) where
    resolved_of :
        (parts : ParsedUrl)
        → validate_parsed libraries resolver policy url parts ≡ ok url
        → (n : ℕ) × (port_of parts ≡ ok n)
          × ((addresses : List String) × (resolver (libraries.strip_host parts.hostname) n
                ≡ some addresses)
              × All IsPublic addresses)
    unfolding validate_parsed
    resolved_of parts h = elim (Result-cases (port_of parts)) [
      | inr (e, bad) ↦ let h' = rw bad at h in absurd (ground (arith, h'))
      | inl (n, port) ↦ elim (Option-cases (resolver (libraries.strip_host parts.hostname) n)) [
        | inl unknown ↦ let h' = rw (port, unknown) at h in absurd (ground (arith, h'))
        | inr (addresses, resolved) ↦
            let h' = rw (port, resolved) at h in
            let checked : check_addresses libraries addresses ≡ ok tt = ground (arith, h') in
            (n, port, (addresses, resolved, All-IsPublic addresses checked))
      ]
    ]

    parts-IsSafe :
        (parts : ParsedUrl)
        → libraries.urlparse url ≡ some parts
        → validate_parsed libraries resolver policy url parts ≡ ok url
        → IsSafe resolver policy url
    unfolding validate_parsed
    parts-IsSafe parts parsed h =
        let (n, port, (addresses, resolved, public)) = resolved_of parts h in
        let host : (parts.hostname == "") ≡ false = ground (arith, h) in
        let domain : allows_domain policy (libraries.strip_host parts.hostname) ≡ true =
          ground (arith, h) in
        record {
          parts = parts;
          parsed = parsed;
          safe_scheme = ground (arith, h);
          allowed_scheme = ground (arith, h);
          has_host = λ e. ground (arith, host, eq_iff parts.hostname "");
          not_blocked = ground (arith, h);
          allowed_domain = (allows-IsAllowed policy (libraries.strip_host parts.hostname)).0 domain;
          port = n;
          has_port = IsPort-of_port_of parts n port;
          addresses = addresses;
          resolved = resolved;
          public = public;
        }

    to_safe :
        validate_outbound_url libraries resolver policy url ≡ ok url → IsSafe resolver policy url
    unfolding validate_outbound_url
    to_safe h = elim (Option-cases (libraries.urlparse url)) [
      | inl bad ↦ let h' = rw bad at h in absurd (ground arith)
      | inr (parts, parsed) ↦ parts-IsSafe parts parsed (rw parsed at h)
    ]

    from_safe :
        IsSafe resolver policy url → validate_outbound_url libraries resolver policy url ≡ ok url
    unfolding validate_outbound_url validate_parsed
    from_safe s =
        let host : (s.parts.hostname == "") ≡ false =
          ground (arith, s.has_host, eq_iff s.parts.hostname "") in
        rw
          (
            s.parsed,
            s.safe_scheme,
            s.allowed_scheme,
            host,
            s.not_blocked,
            (allows-IsAllowed policy (libraries.strip_host s.parts.hostname)).1 s.allowed_domain,
            port_of-of_IsPort s.parts s.port s.has_port,
            s.resolved,
            check-IsPublic s.addresses s.public,
          )
          refl

  -- A URL passes if and only if it can be parsed, its scheme is allowed and not unsafe, its host is there, not
  -- blocked and, if domains are listed, one of them or a host below one of them, and its port (the one
  -- given, unless it is 0, or else 443 for "https" and 80 otherwise) can be read, and for that port the
  -- host resolves to addresses that are all public.
  pub validate-ok_iff :
      (resolver : String → ℕ → Option (List String)) (policy : OutboundPolicy) (url : String)
      → (validate_outbound_url libraries resolver policy url ≡ ok url) ↔ IsSafe resolver policy url
  validate-ok_iff resolver policy url = (to_safe resolver policy url, from_safe resolver policy url)
