-- ===== src/Webhooks/Targets/Public.antt =====
-- What an allowed target is, when addresses are resolved.
use proofrail_evidence_api.Webhooks.{Answer, deliver_once}
use mathlib.Core.Path.{subst}
use proofrail_evidence_api.Prelude.{
  ◌∙◌, sym, ap, ◌⊎◌, String, Any, ℕ, ◌≤◌, ◌≡◌, Bool, true, false, Option, none, some, List, [], ◌∷◌,
  length, All, Bool-cases, Option-cases, inl, inr, refl, arith,
}
use proofrail_evidence_api.Screening.Names.{Codes, codes, codes_eq, strip}
use proofrail_evidence_api.Webhooks.Targets.{
  Net, UrlParts, IpAddress, PortRead, bad_port, no_port, port, Target, allowed, refused, lower,
  is_blocked, normalize_host, is_public_ip, all_public, check_addresses, with_port, check_port,
  check_host, check_parts, validate_webhook_url, unless_refused,
}

abbrev pub allows : Target → Bool
allows (allowed target) = true
allows (refused reason) = false

-- the port that is connected to
abbrev pub port_of : PortRead → ℕ
port_of bad_port = 443
port_of no_port = 443
port_of (port p) = p

module _ (net : Net) where
  abbrev pub IsGlobal : Codes → Type 0
  IsGlobal address = (ip : IpAddress) × ((net.ip_address address ≡ some ip) × (ip.is_global ≡ true))

  -- the host has addresses, and all of them are global
  abbrev pub ResolvesTo : Option (List Codes) → Type 0
  ResolvesTo found =
      (addresses : List Codes) × ((found ≡ some addresses)
        × ((1 ≤ length addresses) × All IsGlobal addresses))

  is_public_ip-IsGlobal : (address : Codes) → is_public_ip net address ≡ true → IsGlobal address
  unfolding is_public_ip
  is_public_ip-IsGlobal address h = elim (Option-cases (net.ip_address address)) [
    | inl e ↦ absurd (ground (arith, h, e))
    | inr (ip, e) ↦ (ip, (e, ground (arith, h, e)))
  ]

  all_public-IsGlobal :
      (addresses : List Codes) → all_public net addresses ≡ true → All IsGlobal addresses
  unfolding all_public
  all_public-IsGlobal [] h = tt
  all_public-IsGlobal (address ∷ addresses) h = (
    is_public_ip-IsGlobal address (ground (arith, h)),
    all_public-IsGlobal addresses (ground (arith, h)),
  )

  check_addresses-ResolvesTo :
      (found : Option (List Codes)) (target : Codes)
      → allows (unless_refused net (check_addresses net found) (allowed target)) ≡ true
      → ResolvesTo found
  check_addresses-ResolvesTo none target h = absurd (ground (arith, h))
  check_addresses-ResolvesTo (some []) target h = absurd (ground (arith, h))
  check_addresses-ResolvesTo (some (address ∷ addresses)) target h =
      elim (Bool-cases (all_public net (address ∷ addresses))) [
        | inl e ↦ (
          address ∷ addresses,
          (refl, (omega arith, all_public-IsGlobal (address ∷ addresses) e)),
        )
        | inr e ↦ absurd (ground (arith, h, e))
      ]

  module _ (parts : UrlParts) where
    with_port-ResolvesTo :
        (host : Codes) (p : ℕ) (include_port : Bool)
        → allows (with_port net parts host true p include_port) ≡ true
        → ResolvesTo (net.getaddrinfo host p)
    unfolding with_port
    with_port-ResolvesTo host p include_port h =
        check_addresses-ResolvesTo (net.getaddrinfo host p) [] (ground (arith, h))

    check_port-ResolvesTo :
        (host : Codes) (r : PortRead)
        → allows (check_port net parts host true r) ≡ true
        → ResolvesTo (net.getaddrinfo host (port_of r))
    check_port-ResolvesTo host bad_port h = absurd (ground (arith, h))
    check_port-ResolvesTo host no_port h = with_port-ResolvesTo host 443 false h
    check_port-ResolvesTo host (port p) h = with_port-ResolvesTo host p true h

    -- an https URL whose host is neither blocked nor a private address, and resolves to global ones
    abbrev pub IsPublic : Type 0
    IsPublic =
        (host : Codes) × ((normalize_host net parts.hostname ≡ some host)
          × ((is_blocked host ≡ false)
              × ((codes_eq (lower parts.scheme) (codes "https") ≡ true)
                  × ResolvesTo (net.getaddrinfo host (port_of parts.port_read)))))

    check_host-IsPublic :
        (r : Option Codes)
        → normalize_host net parts.hostname ≡ r
        → codes_eq (lower parts.scheme) (codes "https") ≡ true
        → allows (check_host net parts true r) ≡ true
        → IsPublic
    check_host-IsPublic none e scheme h = absurd (ground (arith, h))
    check_host-IsPublic (some host) e scheme h = (
      host,
      (
        e,
        (
          ground (arith, h),
          (scheme, check_port-ResolvesTo host parts.port_read (ground (arith, h))),
        ),
      ),
    )

    check_parts-IsPublic : allows (check_parts net true parts) ≡ true → IsPublic
    unfolding check_parts
    check_parts-IsPublic h =
        check_host-IsPublic (normalize_host net parts.hostname) refl (ground (arith, h))
          (ground (arith, h))

-- A URL that is allowed with its addresses resolved is an https URL whose host, as it is normalised, is
-- not blocked and resolves, at the port of the URL, to at least one address, all of them global.
pub validate_webhook_url-IsPublic :
    (net : Net) (url target : Codes)
    → validate_webhook_url net url true ≡ allowed target
    → (parts : UrlParts) × ((net.urlsplit (strip url) ≡ some parts) × IsPublic net parts)
unfolding validate_webhook_url
validate_webhook_url-IsPublic net url target h = elim (Option-cases (net.urlsplit (strip url))) [
  | inl e ↦ absurd (ground (arith, h, e))
  | inr (parts, e) ↦ (parts, (e, check_parts-IsPublic net parts (ground (arith, h, e))))
]

module _ {A : Type 0} where
  some-injective : (a b : A) → some a ≡ some b → a ≡ b
  some-injective a b e = ap (λ o. elim o [ none ↦ a | some x ↦ x ]) e

-- the target, if there is one
abbrev pub target_text : (Codes → String) → Target → Option String
target_text text_of (allowed target) = some (text_of target)
target_text text_of (refused reason) = none

-- `validate_webhook_url` as `deliver_once` calls it
abbrev pub resolved_target : Net → (Codes → String) → String → Option String
resolved_target net text_of url = target_text text_of (validate_webhook_url net (codes url) true)

not_allowed :
    (validate : String → Option String) (sign : String → String → String)
    (post : String → String → String → Answer) (url secret payload_json : String)
    → validate url ≡ none
    → deliver_once validate sign post url secret payload_json
      ≡ record { ok = false; status_code = none; error = some "webhook_url_not_allowed" }
unfolding deliver_once
not_allowed validate sign post url secret payload_json e = ground (arith, e)

-- an address that is not global
abbrev pub IsPrivate : Net → Codes → Type 0
IsPrivate net address =
    (ip : IpAddress) × ((net.ip_address address ≡ some ip) × (ip.is_global ≡ false))

private-global :
    (net : Net) (addresses : List Codes)
    → Any (IsPrivate net) addresses
    → All (IsGlobal net) addresses
    → ⊥
private-global net [] found all = absurd found
private-global net (address ∷ addresses) (inl (ip, (e, p))) ((jp, (f, g)), all) =
    grind (arith, e, f, p, g)
private-global net (address ∷ addresses) (inr found) all = private-global net addresses found all.1

target_or :
    (t : Target)
    → ((target : Codes) × (t ≡ allowed target)) ⊎ ((reason : String) × (t ≡ refused reason))
target_or (allowed target) = inl (target, refl)
target_or (refused reason) = inr (reason, refl)

-- A delivery to a URL whose host resolves to an address that is not global is not sent, whatever the
-- receiver would answer: the result is that the URL is not allowed.
pub deliver_once-private :
    (net : Net) (text_of : Codes → String) (sign : String → String → String)
    (post : String → String → String → Answer) (url secret payload_json : String) (parts : UrlParts)
    (host : Codes) (addresses : List Codes)
    → net.urlsplit (strip (codes url)) ≡ some parts
    → normalize_host net parts.hostname ≡ some host
    → net.getaddrinfo host (port_of parts.port_read) ≡ some addresses
    → Any (IsPrivate net) addresses
    → deliver_once (resolved_target net text_of) sign post url secret payload_json
      ≡ record { ok = false; status_code = none; error = some "webhook_url_not_allowed" }
deliver_once-private net text_of sign post url secret payload_json parts host addresses split norm
      resolves private =
    elim (target_or (validate_webhook_url net (codes url) true)) [
      | inr (reason, e) ↦
          not_allowed (resolved_target net text_of) sign post url secret payload_json
            (ap (target_text text_of) e)
      | inl (target, e) ↦
          let (
            parts',
            (split', (host', (norm', (free, (scheme, (found, (resolves', (some_found, all)))))))),
          ) =
            validate_webhook_url-IsPublic net (codes url) target e in
          let same_parts : parts' ≡ parts = some-injective parts' parts (sym split' ∙ split) in
          let same_host : host' ≡ host =
            some-injective host' host (
              sym norm' ∙ ap (λ (p : UrlParts). normalize_host net p.hostname) same_parts ∙ norm) in
          let same_addresses : found ≡ addresses = some-injective found addresses (
            sym resolves'
            ∙ ap (λ h. net.getaddrinfo h (port_of parts'.port_read)) same_host
            ∙ ap (λ (p : UrlParts). net.getaddrinfo host (port_of p.port_read)) same_parts
            ∙ resolves) in
          absurd
            (private-global net addresses private (subst (All (IsGlobal net)) same_addresses all))
    ]
