-- ===== src/Webhooks/Targets.antt =====
-- `validate_webhook_url` of ProofRail/service/webhooks.py. What it calls (`urlsplit`, `urlunsplit`, the
-- IDNA codec, `ipaddress` and `getaddrinfo`) is a record of functions. Texts are lists of code points.
pub mod Public
mod Tests
use proofrail_evidence_api.Prelude.{
  ℕ, ◌+◌, String, Bool, true, false, not, ◌&&◌, ◌||◌, Option, none, some, List, [], ◌∷◌, ◌++◌, any,
  map, ltb, leb, ◌==◌, show, if◌then◌else◌,
}
use proofrail_evidence_api.Screening.Names.{Codes, codes, codes_eq, strip}
use proofrail_evidence_api.Sanctions.Xml.{ends_with}

-- `parts.port` raises, is missing, or is there
pub data PortRead : Type 0 where
  bad_port : PortRead
  no_port : PortRead
  port : ℕ → PortRead

-- an attribute of the parts that is None is the empty text
pub record UrlParts : Type 0 where
  pub scheme : Codes
  pub username : Codes
  pub password : Codes
  pub hostname : Codes
  pub port_read : PortRead
  pub path : Codes
  pub query : Codes
  pub fragment : Codes

pub record IpAddress : Type 0 where
  pub is_global : Bool
  pub version : ℕ

-- `none` is an exception: ValueError, UnicodeError, ValueError, gaierror
pub record Net : Type 0 where
  pub urlsplit : Codes → Option UrlParts
  pub urlunsplit : Codes → Codes → Codes → Codes → Codes
  pub encode_idna : Codes → Option Codes
  pub ip_address : Codes → Option IpAddress
  pub getaddrinfo : Codes → ℕ → Option (List Codes)

-- the validated URL, or the text of the ValueError
pub data Target : Type 0 where
  allowed : Codes → Target
  refused : String → Target

-- `lower` on ASCII
abbrev pub lower : Codes → Codes
lower s = map (λ c. if leb 65 c && leb c 90 then c + 32 else c) s

abbrev pub is_empty : Codes → Bool
is_empty [] = true
is_empty (c ∷ s) = false

-- `rstrip(".")`
unfoldable pub rstrip_dots : Codes → Codes
rstrip_dots [] = []
rstrip_dots (c ∷ s) =
    let rest = rstrip_dots s in if (c == 46) && is_empty rest then [] else c ∷ rest

-- `_BLOCKED_HOSTS` and `_BLOCKED_HOST_SUFFIXES`
abbrev pub is_blocked : Codes → Bool
is_blocked host =
    codes_eq host (codes "localhost")
    || any (λ suffix. ends_with host (codes suffix))
        (".localhost" ∷ ".local" ∷ ".internal" ∷ ".lan" ∷ [])

module _ (net : Net) where
  abbrev pub normalize_host : Codes → Option Codes
  normalize_host host = elim (net.encode_idna host) [
    | none ↦ none
    | some ascii ↦ some (rstrip_dots (lower ascii))
  ]

  unfoldable pub is_public_ip : Codes → Bool
  is_public_ip value = elim (net.ip_address value) [ none ↦ false | some ip ↦ ip.is_global ]

  -- the loop over what was resolved
  unfoldable pub all_public : List Codes → Bool
  all_public [] = true
  all_public (address ∷ addresses) = let rest = all_public addresses in is_public_ip address && rest

  -- `_assert_public_resolved_addresses`, with the text of its ValueError
  abbrev pub check_addresses : Option (List Codes) → Option String
  check_addresses none = some "dns_resolution_failed"
  check_addresses (some []) = some "dns_resolution_failed"
  check_addresses (some (address ∷ addresses)) =
      if all_public (address ∷ addresses) then none else some "resolved_address_not_public"

  -- an IPv6 address stands in brackets
  abbrev pub host_part : Option IpAddress → Codes → Codes
  host_part none host = host
  host_part (some ip) host = if ip.version == 6 then codes "[" ++ host ++ codes "]" else host

  abbrev pub format_netloc : Codes → ℕ → Bool → Codes
  format_netloc host p include_port =
      let part = host_part (net.ip_address host) host in
      if include_port then part ++ codes ":" ++ codes (show p) else part

  abbrev pub path_or_root : Codes → Codes
  path_or_root [] = codes "/"
  path_or_root (c ∷ s) = c ∷ s

  abbrev pub rebuilt : UrlParts → Codes → ℕ → Bool → Target
  rebuilt parts host p include_port = allowed (
      net.urlunsplit (codes "https") (format_netloc host p include_port) (path_or_root parts.path)
        parts.query)

  abbrev pub unless_refused : Option String → Target → Target
  unless_refused none target = target
  unless_refused (some reason) target = refused reason

  unfoldable pub with_port : UrlParts → Codes → Bool → ℕ → Bool → Target
  with_port parts host resolve_dns p include_port =
      if ltb p 1 || ltb 65535 p
      then refused "invalid_port"
      else unless_refused (if resolve_dns then check_addresses (net.getaddrinfo host p) else none)
          (rebuilt parts host p include_port)

  abbrev pub check_port : UrlParts → Codes → Bool → PortRead → Target
  check_port parts host resolve_dns bad_port = refused "invalid_port"
  check_port parts host resolve_dns no_port = with_port parts host resolve_dns 443 false
  check_port parts host resolve_dns (port p) = with_port parts host resolve_dns p true

  -- an address that is not public is refused, and a name is not an address
  abbrev pub is_private_literal : Codes → Bool
  is_private_literal host =
      not (is_public_ip host) && (elim (net.ip_address host) [ none ↦ false | some ip ↦ true ])

  abbrev pub check_host : UrlParts → Bool → Option Codes → Target
  check_host parts resolve_dns none = refused "invalid_host"
  check_host parts resolve_dns (some host) =
      if is_blocked host
      then refused "host_not_allowed"
      else if is_private_literal host
      then refused "ip_address_not_public"
      else check_port parts host resolve_dns parts.port_read

  unfoldable pub check_parts : Bool → UrlParts → Target
  check_parts resolve_dns parts =
      if not (codes_eq (lower parts.scheme) (codes "https"))
      then refused "https_required"
      else if not (is_empty parts.username && is_empty parts.password)
      then refused "userinfo_not_allowed"
      else if is_empty parts.hostname
      then refused "host_required"
      else if not (is_empty parts.fragment)
      then refused "fragment_not_allowed"
      else check_host parts resolve_dns (normalize_host parts.hostname)

  unfoldable pub validate_webhook_url : Codes → Bool → Target
  validate_webhook_url url resolve_dns = elim (net.urlsplit (strip url)) [
    | none ↦ refused "invalid_url"
    | some parts ↦ check_parts resolve_dns parts
  ]
