-- ===== src/Web/Audit.antt =====
-- src/rasenmaeher_api/web/api/utils/auditcontext.py: what the audit log says about a request.
-- The headers are the request's `headers.get`, which ignores case; cryptography's parser of
-- RFC 4514 names is a parameter.
pub mod Values
pub mod Laws
use Prim.Native.String
use python_rasenmaeher_api.Base.{
  ℕ, zero, suc, ◌+◌, ◌-◌, ◌≤◌, ◌<◌, String, ◌≡◌, refl, sym, ap, ◌∙◌, ◌≢◌, ◌↔◌, ◌⊎◌, inl, inr, Bool,
  true, false, not, ◌&&◌, ◌||◌, Option, none, some, List, [], ◌∷◌, ◌++◌, map, arith, ◌==◌, eq_iff,
  eq_refl, eqb, ltb, if◌then◌else◌, eqb_refl, Bool-cases, Option-cases, is_some, All, find_first,
  where_rows, update_rows, any,
}
use python_rasenmaeher_api.Text.{
  same_codes, codes, take, lower_codes, before_char, remove_char, join, strip,
}
use python_rasenmaeher_api.Json.{update, str, Dict, lookup, insert}

-- `client_host` is missing when the request has no client or its client has no host.
pub record Request : Type 0 where
  pub client_host : Option String
  pub header : String → Option String

-- The value of an attribute of a name.
pub data AttributeValue : Type 0 where
  text bytes : String → AttributeValue

abbrev pub max_header_len : ℕ
max_header_len = 256

abbrev pub max_fingerprint_len : ℕ
max_fingerprint_len = 128

-- `_clean_header`: the line feed is 10 and the carriage return 13.
unfoldable pub clean_text : ℕ → String → String
unfolding strip remove_char take
clean_text max_len value = take max_len (remove_char 13 (remove_char 10 (strip value)))

unfoldable pub clean_header : ℕ → Option String → String
clean_header max_len none = ""
clean_header max_len (some value) = clean_text max_len value

-- `_first_xff_ip`: the comma is 44.
unfoldable pub first_xff_ip : String → String
unfolding strip before_char
first_xff_ip xff = strip (before_char 44 xff)

abbrev pub is_given : String → Bool
is_given s = not (s == "")

-- The first common name, where it is text.
unfoldable pub first_text : List AttributeValue → Option String
first_text (text value ∷ _) = some value
first_text _ = none

unfoldable pub first_of : Option (List AttributeValue) → Option String
unfolding first_text
first_of none = none
first_of (some cn_attrs) = first_text cn_attrs

module _ (common_names : String → Option (List AttributeValue)) where
  -- The common name in the header; `none` of the parser is its `ValueError`.
  unfoldable pub actor_of_dn : String → Option String
  unfolding first_of
  actor_of_dn cert_dn = if is_given cert_dn then first_of (common_names cert_dn) else none

  unfoldable pub resolve_actor_from_request : Request → Bool → String
  unfolding clean_header actor_of_dn
  resolve_actor_from_request request false = "unknown"
  resolve_actor_from_request request true =
      let cert_fp = clean_header max_fingerprint_len (request.header "X-SSL-Client-Fingerprint") in
      elim (actor_of_dn (clean_header max_header_len (request.header "X-ClientCert-DN"))) [
        | some cn ↦ cn
        | none ↦ if is_given cert_fp then cert_fp else "unknown"
      ]

-- The client's own address, which may clean to nothing.
unfoldable pub host_ip : Option String → String
unfolding clean_header
host_ip none = "unknown"
host_ip (some host) = if is_given host then clean_header max_header_len (some host) else "unknown"

abbrev pub client_ip : Request → String
client_ip request = host_ip request.client_host

-- What the proxy's headers say: the real address before the first one of those it was sent for.
unfoldable pub proxy_ip : String → String → String
unfolding first_xff_ip
proxy_ip x_real_ip xff =
    if is_given x_real_ip then x_real_ip else (if is_given xff then first_xff_ip xff else "unknown")

unfoldable pub forwarded_ip : Request → Bool → String
unfolding clean_header proxy_ip
forwarded_ip request false = "unknown"
forwarded_ip request true =
    proxy_ip (clean_header max_header_len (request.header "X-Real-IP"))
      (clean_header max_header_len (request.header "X-Forwarded-For"))

unfoldable pub source_ip : Request → Bool → String
unfolding forwarded_ip host_ip
source_ip request trust =
    let ip = forwarded_ip request trust in if ip == "unknown" then client_ip request else ip

-- `if value: ctx[key] = value`
unfoldable pub put_given : String → String → List (String × String) → List (String × String)
unfolding insert
put_given key value ctx = if is_given value then insert key value ctx else ctx

unfoldable pub get_audit_request_context : Request → Bool → List (String × String)
unfolding clean_header source_ip host_ip put_given
get_audit_request_context request trust =
    put_given "tls.client.x509.serial_number"
      (clean_header max_header_len (request.header "X-ClientCert-Serial"))
      (put_given "tls.client.x509.subject.distinguished_name"
        (clean_header max_header_len (request.header "X-ClientCert-DN"))
        (put_given "tls.client.hash.sha256"
          (clean_header max_fingerprint_len (request.header "X-SSL-Client-Fingerprint"))
          (put_given "transaction.id" (clean_header max_header_len (request.header "X-Request-ID"))
            (("source.ip", source_ip request trust) ∷ ("client.ip", client_ip request) ∷ []))))

-- `f"{key}={value}"`
abbrev pub equation : String → String → String
equation key value = String.◌++◌ key (String.◌++◌ "=" value)

-- `ctx.get(key, "unknown")`, in an equation
abbrev pub part_or_unknown : String → Option String → String
part_or_unknown key none = equation key "unknown"
part_or_unknown key (some value) = equation key value

-- `if value: parts.append(…)`
abbrev pub part_if_given : String → Option String → List String → List String
part_if_given key none parts = parts
part_if_given key (some value) parts = if is_given value then equation key value ∷ parts else parts

unfoldable pub parts_of : List String → List (String × String) → List String
unfolding lookup
parts_of [] ctx = []
parts_of (key ∷ keys) ctx = part_if_given key (lookup key ctx) (parts_of keys ctx)

abbrev pub optional_keys : List String
optional_keys =
    "transaction.id" ∷ "tls.client.hash.sha256" ∷ "tls.client.x509.serial_number"
    ∷ "tls.client.x509.subject.distinguished_name" ∷ []

unfoldable pub format_audit_request_context : List (String × String) → String
unfolding lookup parts_of join
format_audit_request_context ctx = join " " (
    part_or_unknown "source.ip" (lookup "source.ip" ctx)
    ∷ part_or_unknown "client.ip" (lookup "client.ip" ctx)
    ∷ parts_of optional_keys ctx)

-- The outcome, stripped and in lower case, if it is one of the three known words.
unfoldable pub normalized_outcome : String → String
unfolding strip lower_codes codes same_codes
normalized_outcome outcome =
    let word = lower_codes (strip outcome) in
    if same_codes word (codes "success")
    then "success"
    else (if same_codes word (codes "failure") then "failure" else "unknown")

-- The strings of a context as the values of a record of the log.
abbrev pub as_values : List (String × String) → Dict
as_values [] = []
as_values ((k, v) ∷ ctx) = (k, str v) ∷ as_values ctx

abbrev pub put_if_given : String → Option String → Dict → Dict
put_if_given key none d = d
put_if_given key (some value) d = if is_given value then insert key (str value) d else d

-- `if request: extra.update(…)`
unfoldable pub with_context : Option Request → Bool → Dict → Dict
unfolding update get_audit_request_context
with_context none trust d = d
with_context (some request) trust d = update d (as_values (get_audit_request_context request trust))

module _ (common_names : String → Option (List AttributeValue)) where
  -- An actor that is missing or empty is read off the request, if there is one.
  unfoldable pub resolved_actor : Option String → Option Request → Bool → Option String
  unfolding resolve_actor_from_request
  resolved_actor none none trust = none
  resolved_actor none (some request) trust =
      some (resolve_actor_from_request common_names request trust)
  resolved_actor (some actor) none trust = some actor
  resolved_actor (some actor) (some request) trust =
      if is_given actor
      then some actor
      else some (resolve_actor_from_request common_names request trust)

  unfoldable pub build_audit_extra :
      String → String → Option String → Option String → Option Request → Bool → Dict → Dict
  unfolding insert update normalized_outcome resolved_actor with_context
  build_audit_extra action outcome actor target request trust extra_fields =
      let named =
        put_if_given "user.name" (resolved_actor actor request trust) (
          ("event.action", str action)
          ∷ ("event.outcome", str (normalized_outcome outcome))
          ∷ []) in
      let base = put_if_given "destination.user.name" target named in
      update (with_context request trust base) extra_fields
