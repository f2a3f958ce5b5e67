-- ===== src/Validation/Endpoint.antt =====
-- runtime/validation.rs: `endpoint`. The http package's parse of a URI is a parameter.
use rust_plugin_sdk.Prelude.{
  ℕ, ◌+◌, String, Bool, not, ◌&&◌, ◌||◌, Option, none, some, List, [], ◌∷◌, leb, ◌==◌, ◌!=◌, nat_eq,
  string_eq, option_eq, list_eq, any, is_some, if◌then◌else◌,
}
use rust_plugin_sdk.Prelude.Text.{bytes}
use rust_plugin_sdk.Error.{SdkError, Result, ok, err, ◌>>=◌}
use rust_plugin_sdk.Validation.Defs.{is_some_and}
use rust_plugin_sdk.Validation.Address.{parse_ip, is_loopback}

pub record Authority : Type 0 where
  pub text : String
  pub host : String
  pub port_u16 : Option ℕ

pub record Uri : Type 0 where
  pub scheme_str : Option String
  pub authority : Option Authority
  pub path : String
  pub query : Option String

-- `http::Uri::from_str`.
pub data Parsed : Type 0 where
  unparsed : String → Parsed
  parsed : Uri → Parsed

-- `strip_prefix('[')` and, of what is left, `strip_suffix(']')`.
abbrev pub strip_suffix : ℕ → List ℕ → Option (List ℕ)
strip_suffix c [] = none
strip_suffix c (b ∷ []) = if b == c then some [] else none
strip_suffix c (b ∷ b' ∷ bs) = elim (strip_suffix c (b' ∷ bs)) [
  | none ↦ none
  | some rest ↦ some (b ∷ rest)
]

abbrev pub stripped : List ℕ → Option (List ℕ)
stripped [] = none
stripped (b ∷ bs) = if b == b'[' then strip_suffix b']' bs else none

abbrev pub unbracketed : List ℕ → List ℕ
unbracketed bs = elim (stripped bs) [ none ↦ bs | some inner ↦ inner ]

-- `eq_ignore_ascii_case`.
abbrev pub to_ascii_lowercase : ℕ → ℕ
to_ascii_lowercase b = if leb b'A' b && leb b b'Z' then b + 32 else b

abbrev pub lowercase : List ℕ → List ℕ
lowercase [] = []
lowercase (b ∷ bs) = to_ascii_lowercase b ∷ lowercase bs

abbrev pub eq_ignore_ascii_case : List ℕ → List ℕ → Bool
eq_ignore_ascii_case a b = lowercase a == lowercase b

unfoldable pub is_loopback_host : List ℕ → Bool
unfolding bytes parse_ip is_loopback
is_loopback_host host =
    let bare = unbracketed host in
    eq_ignore_ascii_case bare (bytes "localhost") || is_some_and is_loopback (parse_ip bare)

abbrev pub names_loopback : Authority → Bool
names_loopback authority = is_loopback_host (bytes authority.host)

abbrev pub has_explicit_port : Authority → Bool
has_explicit_port authority = is_some_and (λ port. port != 0) authority.port_u16

abbrev pub has_no_user : Authority → Bool
has_no_user authority = not (any (λ b. b == b'@') (bytes authority.text))

unfoldable pub check_uri : Uri → Result Uri
unfolding is_loopback_host bytes
check_uri uri =
    if uri.scheme_str != some "http"
      || (not (is_some_and names_loopback uri.authority)
          || (not (is_some_and has_explicit_port uri.authority)
              || (not (is_some_and has_no_user uri.authority)
                  || not (uri.path == "/" && not (is_some uri.query)))))
    then err (
        SdkError.environment
          "OLL_PLUGIN_ENDPOINT must be an http loopback URL with an explicit nonzero port")
    else ok uri

abbrev pub parse_result : Parsed → Result Uri
parse_result (unparsed error) = err (SdkError.runtime "parse OLL_PLUGIN_ENDPOINT" error)
parse_result (parsed uri) = ok uri

unfoldable pub endpoint : (String → Parsed) → String → Result Uri
unfolding check_uri
endpoint parse value = do uri ← parse_result (parse value); check_uri uri
