-- ===== src/Outbound/Policy.antt =====
-- `OutboundPolicy` and the constants beside it (agi_platform/outbound.py). The timeouts of the transport
-- are left out; the total timeout counts in units of the clock.
use agi_platform.Prelude.{ℕ, ◌*◌, String, ◌+++◌, ◌==◌, List, [], ◌∷◌, Bool, true, ◌||◌, any}

abbrev pub unsafe_schemes : List String
unsafe_schemes = "file" ∷ "gopher" ∷ "ftp" ∷ "dict" ∷ "sftp" ∷ "tftp" ∷ []

abbrev pub blocked_hosts : List String
blocked_hosts = "localhost" ∷ "metadata.google.internal" ∷ []

abbrev pub metadata_ips : List String
metadata_ips = "169.254.169.254" ∷ "100.100.100.200" ∷ []

pub record OutboundPolicy : Type 0 where
  pub allowed_schemes : List String
  pub allowed_domains : List String
  pub allowed_content_types : List String
  pub max_redirects : ℕ
  pub max_response_bytes : ℕ
  pub total_timeout : ℕ

-- `OutboundPolicy()`, with a clock of milliseconds
abbrev pub default_policy : OutboundPolicy
default_policy = record {
  allowed_schemes = "http" ∷ "https" ∷ [];
  allowed_domains = [];
  allowed_content_types = "application/json" ∷ "text/plain" ∷ "text/html" ∷ [];
  max_redirects = 3;
  max_response_bytes = 2 * 1024 * 1024;
  total_timeout = 10000;
}

-- `s.endswith(p)`
unfoldable pub ends_with : String → String → Bool
ends_with String.[] p = String.[] == p
ends_with (String.◌∷◌ c s) p = (String.◌∷◌ c s == p) || ends_with s p

-- `OutboundPolicy.allows_domain`
unfoldable pub allows_domain : OutboundPolicy → String → Bool
unfolding ends_with
allows_domain policy host = allows policy.allowed_domains
  where
    allows : List String → Bool
    allows [] = true
    allows (d ∷ ds) = any (λ domain. host == domain || ends_with host ("." +++ domain)) (d ∷ ds)
