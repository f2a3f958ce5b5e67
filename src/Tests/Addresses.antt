-- ===== src/Tests/Addresses.antt =====
-- Addresses that std::net parses, and some that it does not.
use rust_plugin_sdk.Prelude.{String, ◌==◌, string_eq, if◌then◌else◌, ◌≡◌, refl, none, some, [], ◌∷◌}
use rust_plugin_sdk.Prelude.Text.{bytes}
use rust_plugin_sdk.Error.{ok}
use rust_plugin_sdk.Validation.Endpoint.{
  Uri, Parsed, parsed, unparsed, endpoint, check_uri, is_loopback_host,
}
use rust_plugin_sdk.Validation.Loopback.{IsLocalEndpoint, endpoint_iff}
use rust_plugin_sdk.Validation.Address.{
  IpAddr, parse_ip, is_loopback, read_ipv4, read_ipv6, read_groups, read_number, read_digits,
}

loopback_v4 :
    parse_ip (bytes "127.0.0.1") ≡ some (IpAddr.v4 (record { a = 127; b = 0; c = 0; d = 1 }))
unfolding parse_ip read_ipv4 read_ipv6 read_groups read_number read_digits bytes
loopback_v4 = refl

loopback_v6 : parse_ip (bytes "::1") ≡ some (IpAddr.v6 (0 ∷ 0 ∷ 0 ∷ 0 ∷ 0 ∷ 0 ∷ 0 ∷ 1 ∷ []))
unfolding parse_ip read_ipv4 read_ipv6 read_groups read_number read_digits bytes
loopback_v6 = refl

embedded_v4 :
    parse_ip (bytes "::ffff:127.0.0.1")
    ≡ some (IpAddr.v6 (0 ∷ 0 ∷ 0 ∷ 0 ∷ 0 ∷ 65535 ∷ 32512 ∷ 1 ∷ []))
unfolding parse_ip read_ipv4 read_ipv6 read_groups read_number read_digits bytes
embedded_v4 = refl

leading_zero : parse_ip (bytes "0127.0.0.1") ≡ none
unfolding parse_ip read_ipv4 read_ipv6 read_groups read_number read_digits bytes
leading_zero = refl

too_large : parse_ip (bytes "127.0.0.256") ≡ none
unfolding parse_ip read_ipv4 read_ipv6 read_groups read_number read_digits bytes
too_large = refl

full_v6 : parse_ip (bytes "0:0:0:0:0:0:0:1") ≡ some (IpAddr.v6 (0 ∷ 0 ∷ 0 ∷ 0 ∷ 0 ∷ 0 ∷ 0 ∷ 1 ∷ []))
unfolding parse_ip read_ipv4 read_ipv6 read_groups read_number read_digits bytes
full_v6 = refl

two_gaps : parse_ip (bytes "::1::") ≡ none
unfolding parse_ip read_ipv4 read_ipv6 read_groups read_number read_digits bytes
two_gaps = refl

abbrev pub local_uri : Uri
local_uri = record {
  scheme_str = some "http";
  authority = some (record { text = "127.0.0.1:4100"; host = "127.0.0.1"; port_u16 = some 4100 });
  path = "/";
  query = none;
}

abbrev pub parse_one : String → Parsed
parse_one value =
    if value == "http://127.0.0.1:4100" then parsed local_uri else unparsed "invalid uri"

pub accepts_local : endpoint parse_one "http://127.0.0.1:4100" ≡ ok local_uri
unfolding endpoint check_uri is_loopback_host parse_ip read_ipv4 read_ipv6 read_groups read_number
    read_digits is_loopback bytes
accepts_local = refl

endpoint_iff_example :
    (parse_one "http://127.0.0.1:4100" ≡ parsed local_uri) × IsLocalEndpoint local_uri
endpoint_iff_example = (endpoint_iff parse_one "http://127.0.0.1:4100" local_uri).0 accepts_local
