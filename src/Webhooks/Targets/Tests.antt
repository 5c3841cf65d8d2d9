-- ===== src/Webhooks/Targets/Tests.antt =====
-- Targets that are allowed and refused, on a network where every host has one address.
use proofrail_evidence_api.Prelude.{
  ◌≡◌, refl, true, false, none, some, [], ◌∷◌, Option, if◌then◌else◌, inl,
}
use proofrail_evidence_api.Screening.Names.{
  Codes, codes, codes_eq, strip, lstrip, rstrip, rstrip_char, is_space,
}
use proofrail_evidence_api.Webhooks.{responded, deliver_once}
use proofrail_evidence_api.Webhooks.Targets.{
  Net, UrlParts, IpAddress, no_port, allowed, refused, rstrip_dots, is_public_ip, all_public,
  with_port, check_parts, validate_webhook_url,
}
use proofrail_evidence_api.Webhooks.Targets.Public.{
  IsPublic, validate_webhook_url-IsPublic, deliver_once-private, resolved_target,
}

-- a URL is its host, and the address of every host but `intra` is global
abbrev parts_of : Codes → UrlParts
parts_of host = record {
  scheme = codes "HTTPS";
  username = [];
  password = [];
  hostname = host;
  port_read = no_port;
  path = [];
  query = [];
  fragment = [];
}

abbrev address_of : Codes → Option IpAddress
address_of a =
    if codes_eq a (codes "8.8.8.8")
    then some (record { is_global = true; version = 4 })
    else if codes_eq a (codes "10.0.0.1")
    then some (record { is_global = false; version = 4 })
    else none

abbrev net : Net
net = record {
  urlsplit = λ url. some (parts_of url);
  urlunsplit = λ scheme host path query. host;
  encode_idna = λ host. some host;
  ip_address = address_of;
  getaddrinfo =
      λ host p. some (codes (if codes_eq host (codes "intra") then "10.0.0.1" else "8.8.8.8") ∷ []);
}

program : Unit {0}
unfolding strip lstrip rstrip rstrip_char is_space rstrip_dots is_public_ip all_public with_port
    check_parts validate_webhook_url
program = tt

public_allowed :
    validate_webhook_url net (codes " Example.com. ") true ≡ allowed (codes "example.com")
unfolding program
public_allowed = refl

local_refused : validate_webhook_url net (codes "db.internal") false ≡ refused "host_not_allowed"
unfolding program
local_refused = refl

literal_refused :
    validate_webhook_url net (codes "10.0.0.1") false ≡ refused "ip_address_not_public"
unfolding program
literal_refused = refl

validate_webhook_url-IsPublic_example :
    (parts : UrlParts) × ((net.urlsplit (strip (codes " Example.com. ")) ≡ some parts)
      × IsPublic net parts)
validate_webhook_url-IsPublic_example =
    validate_webhook_url-IsPublic net (codes " Example.com. ") (codes "example.com") public_allowed

intra_refused :
    deliver_once
      (resolved_target net (λ s. "target"))
      (λ s b. "sig")
      (λ u b g. responded 200)
      "intra"
      "secret"
      "{}"
    ≡ record { ok = false; status_code = none; error = some "webhook_url_not_allowed" }
unfolding program deliver_once
intra_refused = refl

deliver_once-private_example :
    deliver_once
      (resolved_target net (λ s. "target"))
      (λ s b. "sig")
      (λ u b g. responded 200)
      "intra"
      "secret"
      "{}"
    ≡ record { ok = false; status_code = none; error = some "webhook_url_not_allowed" }
unfolding program
deliver_once-private_example =
    deliver_once-private net (λ s. "target") (λ s b. "sig") (λ u b g. responded 200) "intra"
      "secret" "{}" (parts_of (codes "intra")) (codes "intra") (codes "10.0.0.1" ∷ []) refl refl
      refl (inl (record { is_global = false; version = 4 }, (refl, refl)))
