-- ===== src/Validation/Loopback.antt =====
-- Which endpoints are accepted.
use rust_plugin_sdk.Prelude.{
  ℕ, String, ◌≡◌, ◌≢◌, ◌↔◌, ◌⊎◌, refl, ap, subst, sym, ◌∙◌, inl, inr, Bool, true, false, not, ◌&&◌,
  ◌||◌, is_some, if◌then◌else◌, Option, none, some, List, [], ◌∷◌, ◌==◌, nat_eq, string_eq,
  option_eq, list_eq, list_beq_iff, any, All, arith,
}
use rust_plugin_sdk.Prelude.Text.{bytes}
use rust_plugin_sdk.Error.{SdkError, Result, ok, err, ◌>>=◌, >>=-ok}
use rust_plugin_sdk.Validation.Defs.{is_some_and}
use rust_plugin_sdk.Validation.Address.{IpAddr, parse_ip, is_loopback}
use rust_plugin_sdk.Validation.Endpoint.{
  Authority, Uri, Parsed, unparsed, parsed, unbracketed, lowercase, eq_ignore_ascii_case,
  is_loopback_host, names_loopback, has_explicit_port, has_no_user, check_uri, parse_result,
  endpoint,
}

-- The host of this machine: its name in any case, an IPv4 address of the network 127, or the IPv6 address
-- of the loopback interface.
abbrev pub IsLoopbackAddress : IpAddr → Type 0
IsLoopbackAddress (IpAddr.v4 address) = address.a ≡ 127
IsLoopbackAddress (IpAddr.v6 groups) = groups ≡ 0 ∷ 0 ∷ 0 ∷ 0 ∷ 0 ∷ 0 ∷ 0 ∷ 1 ∷ []

abbrev pub IsLocal : List ℕ → Type 0
IsLocal host =
    (lowercase host ≡ bytes "localhost")
    ⊎ ((address : IpAddr) × (parse_ip host ≡ some address) × IsLoopbackAddress address)

pub record IsLocalEndpoint (uri : Uri) : Type 0 where
  pub scheme : uri.scheme_str ≡ some "http"
  pub authority : Authority
  pub present : uri.authority ≡ some authority
  pub local : IsLocal (unbracketed (bytes authority.host))
  pub port : ℕ
  pub explicit : authority.port_u16 ≡ some port
  pub nonzero : port ≢ 0
  pub anonymous : All (λ b. b ≢ b'@') (bytes authority.text)
  pub root : uri.path ≡ "/"
  pub unqueried : uri.query ≡ none

loopback_iff : (address : IpAddr) → (is_loopback address ≡ true) ↔ IsLoopbackAddress address
unfolding is_loopback
loopback_iff (IpAddr.v4 address) = ground arith
loopback_iff (IpAddr.v6 groups) = list_beq_iff groups (0 ∷ 0 ∷ 0 ∷ 0 ∷ 0 ∷ 0 ∷ 0 ∷ 1 ∷ [])

none_at : (bs : List ℕ) → (not (any (λ b. b == b'@') bs) ≡ true) ↔ All (λ b. b ≢ b'@') bs
none_at [] = ground arith
none_at (b ∷ bs) = ground (arith, none_at bs)

lower_localhost : lowercase (bytes "localhost") ≡ bytes "localhost"
unfolding bytes
lower_localhost = refl

address_iff :
    (o : Option IpAddr)
    → (is_some_and is_loopback o ≡ true)
      ↔ ((address : IpAddr) × (o ≡ some address) × IsLoopbackAddress address)
address_iff none = (λ h. ground (arith, h), λ (a, e, l). ground (arith, e))
address_iff (some a) = (
  λ h. (a, refl, (loopback_iff a).0 h),
  λ (b, e, l).
      let same : b ≡ a = ground (arith, e) in (loopback_iff a).1 (subst IsLoopbackAddress same l),
)

or_iff : (a b : Bool) → (a || b ≡ true) ↔ ((a ≡ true) ⊎ (b ≡ true))
or_iff a b = ground arith

host_iff : (host : List ℕ) → (is_loopback_host host ≡ true) ↔ IsLocal (unbracketed host)
unfolding is_loopback_host
host_iff host =
    let bare = unbracketed host in
    let named = list_beq_iff (lowercase bare) (lowercase (bytes "localhost")) in
    let cases =
      or_iff (eq_ignore_ascii_case bare (bytes "localhost"))
        (is_some_and is_loopback (parse_ip bare)) in
    (
      λ h. elim (cases.0 h) [
        | inl name ↦ inl (named.0 name ∙ lower_localhost)
        | inr address ↦ inr ((address_iff (parse_ip bare)).0 address)
      ],
      λ h. elim h [
        | inl name ↦ cases.1 (inl (named.1 (name ∙ sym lower_localhost)))
        | inr address ↦ cases.1 (inr ((address_iff (parse_ip bare)).1 address))
      ],
    )

ok_inj : {uri u : Uri} → ◌≡◌ {A = Result Uri} (ok uri) (ok u) → uri ≡ u
ok_inj h = ground (arith, h)

gate :
    (s l p n r : Bool) (e : SdkError) (uri u : Uri)
    → ((if not s || (not l || (not p || (not n || not r))) then err e else ok uri) ≡ ok u)
      ↔ ((s ≡ true) × (l ≡ true) × (p ≡ true) × (n ≡ true) × (r ≡ true) × (uri ≡ u))
gate true true true true true e uri u =
    (λ h. (refl, refl, refl, refl, refl, ok_inj h), λ (_, _, _, _, _, same). ap ok same)
gate false l p n r e uri u = ground arith
gate true false p n r e uri u = ground arith
gate true true false n r e uri u = ground arith
gate true true true false r e uri u = ground arith
gate true true true true false e uri u = ground arith

port_iff :
    (o : Option ℕ)
    → (is_some_and (λ port. not (port == 0)) o ≡ true) ↔ ((port : ℕ) × (o ≡ some port) × (port ≢ 0))
port_iff none = (λ h. ground (arith, h), λ (p, e, n). ground (arith, e))
port_iff (some q) = (λ h. (q, refl, ground (arith, h)), λ (p, e, n). ground (arith, e, n))

root_iff :
    (path : String) (query : Option String)
    → ((path == "/") && not (is_some query) ≡ true) ↔ ((path ≡ "/") × (query ≡ none))
root_iff path query = ground (arith, string_eq.beq_iff path "/")

scheme_iff : (o : Option String) → ((o == some "http") ≡ true) ↔ (o ≡ some "http")
scheme_iff o = (option_eq {A = String}).beq_iff o (some "http")

some_only :
    (test : Authority → Bool) (o : Option Authority)
    → is_some_and test o ≡ true
    → (authority : Authority) × (o ≡ some authority) × (test authority ≡ true)
some_only test none h = ground (arith, h)
some_only test (some authority) h = (authority, refl, h)

at_some :
    (test : Authority → Bool) (o : Option Authority) (authority : Authority)
    → o ≡ some authority
    → is_some_and test o ≡ test authority
at_some test o authority e = ap (is_some_and test) e

parse_ok : (r : Parsed) (uri : Uri) → (parse_result r ≡ ok uri) ↔ (r ≡ parsed uri)
parse_ok (unparsed error) uri = ground arith
parse_ok (parsed u) uri = (λ h. ap parsed (ok_inj h), λ h. ground (arith, h))

check_uri_iff : (uri u : Uri) → (check_uri uri ≡ ok u) ↔ (IsLocalEndpoint uri × (uri ≡ u))
unfolding check_uri
check_uri_iff uri u =
    let tests =
      gate (uri.scheme_str == some "http") (is_some_and names_loopback uri.authority)
        (is_some_and has_explicit_port uri.authority) (is_some_and has_no_user uri.authority)
        ((uri.path == "/") && not (is_some uri.query)) _ uri u in
    (
      λ h.
          let (scheme, local, port, user, root, same) = tests.0 h in
          let (authority, present, loopback) = some_only names_loopback uri.authority local in
          let (number, explicit, nonzero) =
            (port_iff authority.port_u16).0
              (sym (at_some has_explicit_port uri.authority authority present) ∙ port) in
          let at = (root_iff uri.path uri.query).0 root in
          (
            record {
              scheme = (scheme_iff uri.scheme_str).0 scheme;
              authority = authority;
              present = present;
              local = (host_iff (bytes authority.host)).0 loopback;
              port = number;
              explicit = explicit;
              nonzero = nonzero;
              anonymous =
                  (none_at (bytes authority.text)).0
                    (sym (at_some has_no_user uri.authority authority present) ∙ user);
              root = at.0;
              unqueried = at.1;
            },
            same,
          ),
      λ (l, same).
          let at = at_some in
          tests.1 (
            (scheme_iff uri.scheme_str).1 l.scheme,
            at_some names_loopback uri.authority l.authority l.present
                ∙ (host_iff (bytes l.authority.host)).1 l.local,
            at_some has_explicit_port uri.authority l.authority l.present
                ∙ (port_iff l.authority.port_u16).1 (l.port, l.explicit, l.nonzero),
            at_some has_no_user uri.authority l.authority l.present
                ∙ (none_at (bytes l.authority.text)).1 l.anonymous,
            (root_iff uri.path uri.query).1 (l.root, l.unqueried),
            same,
          ),
    )

-- `endpoint` accepts a value exactly when the http package parses it and the URI is that of a local
-- endpoint: the scheme is http, the host is localhost in any case or a loopback address, bracketed or
-- not, the port is given and is not 0, the authority has no user part, the path is / and there is no query.
pub endpoint_iff :
    (parse : String → Parsed) (value : String) (uri : Uri)
    → (endpoint parse value ≡ ok uri) ↔ ((parse value ≡ parsed uri) × IsLocalEndpoint uri)
unfolding endpoint
endpoint_iff parse value uri = (
  λ h.
      let (read, parses, checks) = >>=-ok (parse_result (parse value)) check_uri h in
      let (local, same) = (check_uri_iff read uri).0 checks in
      ((parse_ok (parse value) uri).0 (parses ∙ ap ok same), subst IsLocalEndpoint same local),
  λ (parses, local).
      ap (λ r. r >>= check_uri) ((parse_ok (parse value) uri).1 parses)
      ∙ (check_uri_iff uri uri).1 (local, refl),
)
