-- ===== src/Tests/Outbound.antt =====
-- The theorems on requests to other hosts, in a world that redirects once (agi_platform/outbound.py).
use agi_platform.Prelude.{
  ℕ, ◌+◌, ◌≤◌, String, ◌==◌, List, [], ◌∷◌, length, true, false, Option, none, some, All, contains,
  if◌then◌else◌, ok, ◌≡◌, ◌↔◌, refl,
}
use agi_platform.Outbound.Policy.{default_policy, ends_with, allows_domain}
use agi_platform.Outbound.Validation.{
  IpAddress, Libraries, port_of, is_blocked, check_addresses, validate_parsed,
  validate_outbound_url,
}
use agi_platform.Outbound.Validation.Safe.{IsSafe, validate-ok_iff}
use agi_platform.Outbound.Client.{
  Response, Http, accept, turn, turn_of, after_turn, last_turn, follow, request,
}
use agi_platform.Outbound.Client.Requests.{SafeThere, request-SafeThere}

abbrev public_ip : IpAddress
public_ip = record {
  is_private = false;
  is_loopback = false;
  is_link_local = false;
  is_multicast = false;
  is_reserved = false;
  is_unspecified = false;
}

abbrev private_ip : IpAddress
private_ip = record public_ip { is_private = true }

abbrev libraries : Libraries
libraries = record {
  urlparse = λ url. some (record { scheme = "https"; hostname = url; port = ok none });
  strip_host = λ s. s;
  ip_address = λ a. if a == "10.0.0.1" then some private_ip else some public_ip;
}

abbrev resolver : String → ℕ → Option (List String)
resolver host port = if host == "intranet" then some ("10.0.0.1" ∷ []) else some ("1.1.1.1" ∷ [])

abbrev redirect : Response
redirect = record {
  is_redirect = true;
  location = "b.example";
  content_type = "";
  content_length = 0;
}

abbrev final : Response
final = record {
  is_redirect = false;
  location = "";
  content_type = "application/json";
  content_length = 10;
}

-- The world counts the requests.
abbrev http : Http
http = record {
  World = ℕ;
  libraries = libraries;
  resolver = λ w. resolver;
  clock = λ w. w;
  send = λ w method url. (w + 1, if url == "a.example" then some redirect else some final);
  join = λ url location. location;
  media_type = λ s. s;
}

answers : (request http default_policy 0 "GET" "a.example").1 ≡ ok final
unfolding request follow turn turn_of after_turn last_turn accept validate_outbound_url
    validate_parsed check_addresses is_blocked port_of allows_domain ends_with contains
answers = refl

sends :
    (request http default_policy 0 "GET" "a.example").0 ≡ (0, "a.example") ∷ (1, "b.example") ∷ []
unfolding request follow turn turn_of after_turn last_turn accept validate_outbound_url
    validate_parsed check_addresses is_blocked port_of allows_domain ends_with contains
sends = refl

refuses : (request http default_policy 0 "GET" "intranet").0 ≡ []
unfolding request follow turn turn_of after_turn last_turn accept validate_outbound_url
    validate_parsed check_addresses is_blocked port_of allows_domain ends_with contains
refuses = refl

validate-ok_iff_example :
    (validate_outbound_url libraries resolver default_policy "a.example" ≡ ok "a.example")
    ↔ IsSafe libraries resolver default_policy "a.example"
validate-ok_iff_example = validate-ok_iff libraries resolver default_policy "a.example"

request-SafeThere_example :
    All (SafeThere http default_policy) (request http default_policy 0 "GET" "a.example").0
    × (length (request http default_policy 0 "GET" "a.example").0 ≤ 3 + 1)
request-SafeThere_example = request-SafeThere http default_policy 0 "GET" "a.example"
