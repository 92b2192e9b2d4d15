-- ===== src/Outbound/Validation/Parts.antt =====
-- The port and the domain that a URL may have, apart from how `validate_outbound_url` and
-- `OutboundPolicy.allows_domain` compute them (agi_platform/outbound.py).
use mathlib.Core.List.{Memᴰ}
use Prim.Native.Char.{Char}
use text.Mathlib.TextLemmas.{nil-append, cons-append}
use agi_platform.Prelude.{
  ℕ, zero, suc, if◌then◌else◌, String, ◌+++◌, ◌==◌, List, [], ◌∷◌, Bool, true, ◌||◌, any, none,
  some, ok, ◌≡◌, ◌≢◌, ◌↔◌, ◌⊎◌, refl, sym, ap, ◌∙◌, subst, arith, eq_iff, eq_refl, Bool-cases,
  Result-cases, inl, inr,
}
use agi_platform.Outbound.Policy.{OutboundPolicy, ends_with, allows_domain}
use agi_platform.Outbound.Validation.{ParsedUrl, port_of}

-- The host is the domain, or one below it.
abbrev pub IsBelow : String → String → Type 0
IsBelow domain host = (host ≡ domain) ⊎ ((s : String) × (host ≡ s +++ ("." +++ domain)))

-- No domain is listed, or one of those that are allows the host.
abbrev pub IsAllowed : List String → String → Type 0
IsAllowed domains host = (domains ≡ []) ⊎ ((d : String) × Memᴰ d domains × IsBelow d host)

-- The URL names no port, or the port 0.
abbrev NoPort : ParsedUrl → Type 0
NoPort parts = (parts.port ≡ ok none) ⊎ (parts.port ≡ ok (some 0))

-- The port of the URL: the one that it names, or else that of its scheme.
abbrev pub IsPort : ParsedUrl → ℕ → Type 0
IsPort parts n =
    ((parts.port ≡ ok (some n)) × (n ≢ 0))
    ⊎ (NoPort parts × (parts.scheme ≡ "https") × (n ≡ 443))
    ⊎ (NoPort parts × (parts.scheme ≢ "https") × (n ≡ 80))

ends_with_refl : (p : String) → ends_with p p ≡ true
unfolding ends_with
ends_with_refl String.[] = refl
ends_with_refl (String.◌∷◌ c p) = let same = eq_refl (String.◌∷◌ c p) in ground (arith, same)

ends_with-cons :
    (c : Char) (t p : String) → ends_with t p ≡ true → ends_with (String.◌∷◌ c t) p ≡ true
unfolding ends_with
ends_with-cons c t p h = ground (arith, h)

ends_with-append : (s p : String) → ends_with (s +++ p) p ≡ true
ends_with-append String.[] p =
    subst (λ x. ends_with x p ≡ true) (sym (nil-append p)) (ends_with_refl p)
ends_with-append (String.◌∷◌ c s) p =
    subst (λ x. ends_with x p ≡ true) (sym (cons-append c s p))
      (ends_with-cons c (s +++ p) p (ends_with-append s p))

prefix-of_ends_with : (t p : String) → ends_with t p ≡ true → (s : String) × (t ≡ s +++ p)
unfolding ends_with
prefix-of_ends_with String.[] p h = ("", (eq_iff "" p).0 h ∙ sym (nil-append p))
prefix-of_ends_with (String.◌∷◌ c t) p h = elim (Bool-cases (String.◌∷◌ c t == p)) [
  | inl whole ↦ ("", (eq_iff (String.◌∷◌ c t) p).0 whole ∙ sym (nil-append p))
  | inr more ↦
      let (s, e) = prefix-of_ends_with t p (rw more at h) in
      (String.◌∷◌ c s, ap (λ x. String.◌∷◌ c x) e ∙ sym (cons-append c s p))
]

abbrev allows_one : String → String → Bool
allows_one host domain = host == domain || ends_with host ("." +++ domain)

IsBelow-of_allows : (host d : String) → allows_one host d ≡ true → IsBelow d host
IsBelow-of_allows host d h = elim (Bool-cases (host == d)) [
  | inl same ↦ inl ((eq_iff host d).0 same)
  | inr other ↦ inr (prefix-of_ends_with host ("." +++ d) (rw other at h))
]

allows-of_IsBelow : (host d : String) → IsBelow d host → allows_one host d ≡ true
allows-of_IsBelow host d (inl same) = rw (same, eq_refl) refl
allows-of_IsBelow host d (inr (s, e)) =
    let ends = ends_with-append s ("." +++ d) in
    let ends' : ends_with host ("." +++ d) ≡ true = rw e ends in ground (arith, ends')

any-IsBelow :
    (host : String) (ds : List String)
    → (any (allows_one host) ds ≡ true) ↔ ((d : String) × Memᴰ d ds × IsBelow d host)
any-IsBelow host ds = (found ds, finds ds)
  where
    found :
        (ds : List String)
        → any (allows_one host) ds ≡ true
        → (d : String) × Memᴰ d ds × IsBelow d host
    found [] h = absurd (ground arith)
    found (d ∷ ds) h = elim (Bool-cases (allows_one host d)) [
      | inl here ↦ (d, Memᴰ.head refl, IsBelow-of_allows host d here)
      | inr other ↦ let (d', m, b) = found ds (rw other at h) in (d', Memᴰ.tail m, b)
    ]

    finds :
        (ds : List String)
        → (d : String) × Memᴰ d ds × IsBelow d host
        → any (allows_one host) ds ≡ true
    finds [] (d, m, b) = elim m [ ]
    finds (x ∷ ds) (d, Memᴰ.head e, b) =
        let here : allows_one host x ≡ true = rw (← e) (allows-of_IsBelow host d b) in rw here refl
    finds (x ∷ ds) (d, Memᴰ.tail m, b) = let rest = finds ds (d, m, b) in ground (arith, rest)

pub allows-IsAllowed :
    (policy : OutboundPolicy) (host : String)
    → (allows_domain policy host ≡ true) ↔ IsAllowed policy.allowed_domains host
unfolding allows_domain
allows-IsAllowed policy host = by_domains policy.allowed_domains refl
  where
    by_domains :
        (ds : List String)
        → policy.allowed_domains ≡ ds
        → (allows_domain policy host ≡ true) ↔ IsAllowed policy.allowed_domains host
    by_domains [] e = (λ h. inl e, λ a. rw e refl)
    by_domains (d ∷ ds) e = rw e (
      λ h. inr ((any-IsBelow host (d ∷ ds)).0 h),
      λ a. elim a [ inl none_listed ↦ absurd (cc) | inr b ↦ (any-IsBelow host (d ∷ ds)).1 b ],
    )

IsPort-of_scheme :
    (parts : ParsedUrl) (n : ℕ)
    → NoPort parts
    → (if parts.scheme == "https" then 443 else 80) ≡ n
    → IsPort parts n
IsPort-of_scheme parts n unnamed h = elim (Bool-cases (parts.scheme == "https")) [
  | inl secure ↦ inr (inl (unnamed, (eq_iff parts.scheme "https").0 secure, ground arith))
  | inr plain ↦
      inr (inr (unnamed, (λ e. ground (arith, eq_iff parts.scheme "https")), ground arith))
]

pub IsPort-of_port_of : (parts : ParsedUrl) (n : ℕ) → port_of parts ≡ ok n → IsPort parts n
unfolding port_of
IsPort-of_port_of parts n h = elim (Result-cases parts.port) [
  | inr (e, bad) ↦ let h' = rw bad at h in absurd (ground arith)
  | inl (none, unnamed) ↦
      let h' = rw unnamed at h in IsPort-of_scheme parts n (inl unnamed) (ground arith)
  | inl (some zero, unnamed) ↦
      let h' = rw unnamed at h in IsPort-of_scheme parts n (inr unnamed) (ground arith)
  | inl (some (suc m), named) ↦
      let h' = rw named at h in
      let same : suc m ≡ n = ground arith in inl (rw (← same) named, omega (arith, same))
]

pub port_of-of_IsPort : (parts : ParsedUrl) (n : ℕ) → IsPort parts n → port_of parts ≡ ok n
unfolding port_of
port_of-of_IsPort parts n (inl (named, nonzero)) = rw named (ground arith)
port_of-of_IsPort parts n (inr (inl (inl unnamed, secure, e))) = rw (unnamed, secure, e) refl
port_of-of_IsPort parts n (inr (inl (inr unnamed, secure, e))) = rw (unnamed, secure, e) refl
port_of-of_IsPort parts n (inr (inr (inl unnamed, plain, e))) =
    rw unnamed (ground (arith, e, eq_iff parts.scheme "https"))
port_of-of_IsPort parts n (inr (inr (inr unnamed, plain, e))) =
    rw unnamed (ground (arith, e, eq_iff parts.scheme "https"))
