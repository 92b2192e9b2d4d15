-- ===== src/Outbound/Validation.antt =====
-- `validate_outbound_url` and `DNSResolver` (agi_platform/outbound.py). `urlparse`, `socket.getaddrinfo`
-- and `ipaddress.ip_address` are parameters.
pub mod Parts
pub mod Safe
use agi_platform.Prelude.{
  ℕ, String, ◌==◌, List, [], ◌∷◌, Bool, true, false, not, ◌&&◌, ◌||◌, Option, none, some, or_else,
  contains, Dict, get, eqb, Result, ◌>>=◌, or_raise, ok, raise, if◌then◌else◌,
}
use agi_platform.Outbound.Policy.{
  unsafe_schemes, blocked_hosts, metadata_ips, OutboundPolicy, allows_domain,
}

pub data OutboundError : Type 0 where
  outbound_security_error value_error os_error timeout_exception transport_error : OutboundError

-- What `urlparse` reads; a URL without a host has the host "". The port is read when it is asked for, which
-- raises `ValueError` if it is no number, or out of range.
pub record ParsedUrl : Type 0 where
  pub scheme : String
  pub hostname : String
  pub port : Result OutboundError (Option ℕ)

-- What `ipaddress.ip_address` tells.
pub record IpAddress : Type 0 where
  pub is_private : Bool
  pub is_loopback : Bool
  pub is_link_local : Bool
  pub is_multicast : Bool
  pub is_reserved : Bool
  pub is_unspecified : Bool

-- `strip_host` is `.strip().lower().rstrip(".")`; `urlparse` and `ip_address` are `none` where Python raises
-- `ValueError`.
pub record Libraries : Type 0 where
  pub urlparse : String → Option ParsedUrl
  pub strip_host : String → String
  pub ip_address : String → Option IpAddress

-- `DNSResolver.resolve`, where `getaddrinfo` may fail.
unfoldable pub resolve :
    Dict (List String) → (String → ℕ → Option (List String)) → String → ℕ → Option (List String)
resolve overrides getaddrinfo host port = elim (get overrides host) [
  | some addresses ↦ some addresses
  | none ↦ getaddrinfo host port
]

-- `parsed.port or (443 if parsed.scheme == "https" else 80)`
unfoldable pub port_of : ParsedUrl → Result OutboundError ℕ
port_of parsed = do port ← parsed.port; ok (given port)
  where
    default : ℕ
    default = if parsed.scheme == "https" then 443 else 80

    given : Option ℕ → ℕ
    given none = default
    given (some n) = if eqb n 0 then default else n

module _ (libraries : Libraries) where
  unfoldable pub is_blocked : String → IpAddress → Bool
  is_blocked address ip =
      contains address metadata_ips
      || ip.is_private
      || ip.is_loopback
      || ip.is_link_local
      || ip.is_multicast
      || ip.is_reserved
      || ip.is_unspecified

  -- The loop over the addresses.
  unfoldable pub check_addresses : List String → Result OutboundError (Unit {0})
  unfolding is_blocked
  check_addresses [] = ok tt
  check_addresses (address ∷ addresses) =
      let rest = check_addresses addresses in
      (do
        ip ← or_raise value_error (libraries.ip_address address)
        if is_blocked address ip then raise outbound_security_error else rest)

  -- What `validate_outbound_url` does with the parsed URL.
  unfoldable pub validate_parsed :
      (String → ℕ → Option (List String))
      → OutboundPolicy
      → String
      → ParsedUrl
      → Result OutboundError String
  unfolding check_addresses allows_domain port_of
  validate_parsed resolver policy url parsed =
      let host = libraries.strip_host parsed.hostname in
      if contains parsed.scheme unsafe_schemes
        || not (contains parsed.scheme policy.allowed_schemes)
      then raise outbound_security_error
      else if parsed.hostname == ""
      then raise outbound_security_error
      else if contains host blocked_hosts || not (allows_domain policy host)
      then raise outbound_security_error
      else (do
        port ← port_of parsed
        addresses ← or_raise os_error (resolver host port)
        _ ← check_addresses addresses
        ok url)

  -- `validate_outbound_url`, which returns its argument
  unfoldable pub validate_outbound_url :
      (String → ℕ → Option (List String)) → OutboundPolicy → String → Result OutboundError String
  unfolding validate_parsed
  validate_outbound_url resolver policy url = do
    parsed ← or_raise value_error (libraries.urlparse url)
    validate_parsed resolver policy url parsed
