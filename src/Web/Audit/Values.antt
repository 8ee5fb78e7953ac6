-- ===== src/Web/Audit/Values.antt =====
-- What a value of the context of src/rasenmaeher_api/web/api/utils/auditcontext.py may hold.
use Prim.Native.String
use python_rasenmaeher_api.Text.{remove_char, length, strip, before_char}
use python_rasenmaeher_api.Text.Laws.{
  if_keeps, length-before_char, length-take, length-strip, Lacks-remove_char, Lacks-before_char,
  Lacks-remove_other, Lacks-strip, Lacks-take, length-append, Lacks-append, Lacks,
}
use python_rasenmaeher_api.Base.{
  ◌∷◌, [], inr, inl, if◌then◌else◌, Bool-cases, ◌==◌, List, ℕ, ◌+◌, ◌≤◌, String, refl, Bool, true,
  false, Option, none, some, arith,
}
use python_rasenmaeher_api.Web.Audit.{
  is_given, get_audit_request_context, put_given, proxy_ip, host_ip, source_ip, forwarded_ip,
  client_ip, first_xff_ip, clean_header, clean_text, Request,
}
use python_rasenmaeher_api.Json.{insert}

-- No line break, and no more than a number of characters.
pub record IsLine (n : ℕ) (s : String) : Type 0 where
  pub no_line_feed : Lacks 10 s
  pub no_carriage_return : Lacks 13 s
  pub short : length s ≤ n

pub IsLine-append :
    (m n k : ℕ) (s t : String) → m + n ≤ k → IsLine m s → IsLine n t → IsLine k (String.◌++◌ s t)
IsLine-append m n k s t e hs ht = record {
  no_line_feed = Lacks-append 10 s t hs.no_line_feed ht.no_line_feed;
  no_carriage_return = Lacks-append 13 s t hs.no_carriage_return ht.no_carriage_return;
  short = let a = length-append s t in let b = hs.short in let c = ht.short in omega arith;
}

pub IsLine-le : (m n : ℕ) (s : String) → m ≤ n → IsLine m s → IsLine n s
IsLine-le m n s e h = record {
  no_line_feed = h.no_line_feed;
  no_carriage_return = h.no_carriage_return;
  short = let a = h.short in omega arith;
}

IsLine-clean_text : (max_len : ℕ) (value : String) → IsLine max_len (clean_text max_len value)
unfolding clean_text
IsLine-clean_text max_len value = record {
  no_line_feed =
      Lacks-take 10 max_len _ (Lacks-remove_other 10 13 _ (Lacks-remove_char 10 (strip value)));
  no_carriage_return =
      Lacks-take 13 max_len _ (Lacks-remove_char 13 (remove_char 10 (strip value)));
  short = length-take max_len _;
}

pub IsLine-clean_header :
    (max_len : ℕ) (value : Option String) → IsLine max_len (clean_header max_len value)
unfolding clean_header length
IsLine-clean_header max_len none = record {
  no_line_feed = tt;
  no_carriage_return = tt;
  short = omega arith;
}
IsLine-clean_header max_len (some value) = IsLine-clean_text max_len value

IsLine-first_xff_ip : (n : ℕ) (xff : String) → IsLine n xff → IsLine n (first_xff_ip xff)
unfolding first_xff_ip
IsLine-first_xff_ip n xff h = record {
  no_line_feed = Lacks-strip 10 _ (Lacks-before_char 10 44 xff h.no_line_feed);
  no_carriage_return = Lacks-strip 13 _ (Lacks-before_char 13 44 xff h.no_carriage_return);
  short =
      let a = length-strip (before_char 44 xff) in
      let b = length-before_char 44 xff in let c = h.short in omega arith;
}

pub IsLine-unknown : IsLine 256 "unknown"
unfolding length
IsLine-unknown = record {
  no_line_feed = (refl, (refl, (refl, (refl, (refl, (refl, (refl, tt)))))));
  no_carriage_return = (refl, (refl, (refl, (refl, (refl, (refl, (refl, tt)))))));
  short = omega arith;
}

IsLine-host_ip : (host : Option String) → IsLine 256 (host_ip host)
unfolding host_ip
IsLine-host_ip none = IsLine-unknown
IsLine-host_ip (some host) =
    if_keeps (IsLine 256) (is_given host) (clean_header 256 (some host)) "unknown"
      (IsLine-clean_header 256 (some host)) IsLine-unknown

IsLine-proxy_ip :
    (x_real_ip xff : String)
    → IsLine 256 x_real_ip
    → IsLine 256 xff
    → IsLine 256 (proxy_ip x_real_ip xff)
unfolding proxy_ip
IsLine-proxy_ip x_real_ip xff hr hx =
    let rest = if is_given xff then first_xff_ip xff else "unknown" in
    if_keeps (IsLine 256) (is_given x_real_ip) x_real_ip rest hr (
      if_keeps (IsLine 256) (is_given xff) (first_xff_ip xff) "unknown"
        (IsLine-first_xff_ip 256 xff hx) IsLine-unknown)

IsLine-forwarded_ip : (request : Request) (trust : Bool) → IsLine 256 (forwarded_ip request trust)
unfolding forwarded_ip
IsLine-forwarded_ip request false = IsLine-unknown
IsLine-forwarded_ip request true =
    IsLine-proxy_ip _ _ (IsLine-clean_header 256 (request.header "X-Real-IP"))
      (IsLine-clean_header 256 (request.header "X-Forwarded-For"))

IsLine-source_ip : (request : Request) (trust : Bool) → IsLine 256 (source_ip request trust)
unfolding source_ip
IsLine-source_ip request trust =
    let ip = forwarded_ip request trust in
    if_keeps (IsLine 256) (ip == "unknown") (client_ip request) ip
      (IsLine-host_ip request.client_host) (IsLine-forwarded_ip request trust)

abbrev pub HasLines : List (String × String) → Type 0
HasLines [] = Unit
HasLines ((k, v) ∷ ctx) = IsLine 256 v × HasLines ctx

HasLines-insert :
    (k v : String) (ctx : List (String × String))
    → IsLine 256 v
    → HasLines ctx
    → HasLines (insert k v ctx)
unfolding insert
HasLines-insert k v [] hv h = (hv, tt)
HasLines-insert k v ((j, w) ∷ ctx) hv h = elim (Bool-cases (j == k)) [
  | inl e ↦ rw e (hv, h.1)
  | inr e ↦ rw e (h.0, HasLines-insert k v ctx hv h.1)
]

HasLines-put_given :
    (k v : String) (ctx : List (String × String))
    → IsLine 256 v
    → HasLines ctx
    → HasLines (put_given k v ctx)
unfolding put_given
HasLines-put_given k v ctx hv h = elim (Bool-cases (is_given v)) [
  | inl e ↦ rw e (HasLines-insert k v ctx hv h)
  | inr e ↦ rw e h
]

pub HasLines-context :
    (request : Request) (trust : Bool) → HasLines (get_audit_request_context request trust)
unfolding get_audit_request_context
HasLines-context request trust =
    let base : HasLines
        (("source.ip", source_ip request trust) ∷ ("client.ip", client_ip request) ∷ []) =
      (IsLine-source_ip request trust, (IsLine-host_ip request.client_host, tt)) in
    let hash =
      IsLine-le 128 256 _ (omega arith)
        (IsLine-clean_header 128 (request.header "X-SSL-Client-Fingerprint")) in
    let addresses : List (String × String) =
      ("source.ip", source_ip request trust) ∷ ("client.ip", client_ip request) ∷ [] in
    let with_id =
      HasLines-put_given "transaction.id" (clean_header 256 (request.header "X-Request-ID"))
        addresses (IsLine-clean_header 256 (request.header "X-Request-ID")) base in
    let with_hash = HasLines-put_given "tls.client.hash.sha256" _ _ hash with_id in
    let with_dn =
      HasLines-put_given "tls.client.x509.subject.distinguished_name" _ _
        (IsLine-clean_header 256 (request.header "X-ClientCert-DN")) with_hash in
    HasLines-put_given "tls.client.x509.serial_number" _ _
      (IsLine-clean_header 256 (request.header "X-ClientCert-Serial")) with_dn
