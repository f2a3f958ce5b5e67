-- ===== src/Validation/Bytes.antt =====
-- Byte-level tests of runtime/validation.rs: `split('.')` and `valid_dns_label`.
use rust_plugin_sdk.Prelude.{
  ℕ, zero, suc, ◌-◌, Bool, ◌&&◌, ◌||◌, not, List, [], ◌∷◌, leb, ◌==◌, nat_eq, if◌then◌else◌, length,
  all,
}

abbrev pub maximum_plugin_id_bytes : ℕ
maximum_plugin_id_bytes = 191

abbrev pub maximum_dns_label_bytes : ℕ
maximum_dns_label_bytes = 63

abbrev pub cons_head : ℕ → List (List ℕ) → List (List ℕ)
cons_head b [] = (b ∷ []) ∷ []
cons_head b (l ∷ ls) = (b ∷ l) ∷ ls

-- `split` of a text at a byte: one more piece than there are separators.
unfoldable pub split : ℕ → List ℕ → List (List ℕ)
split c [] = [] ∷ []
split c (b ∷ bs) = let rest = split c bs in if b == c then [] ∷ rest else cons_head b rest

abbrev pub is_ascii_lowercase : ℕ → Bool
is_ascii_lowercase b = leb b'a' b && leb b b'z'

abbrev pub is_ascii_digit : ℕ → Bool
is_ascii_digit b = leb b'0' b && leb b b'9'

-- `bytes[i]`; the code never reads past the end.
abbrev pub byte_at : List ℕ → ℕ → ℕ
byte_at [] i = 0
byte_at (b ∷ bs) zero = b
byte_at (b ∷ bs) (suc i) = byte_at bs i

unfoldable pub valid_dns_label : List ℕ → Bool
valid_dns_label bytes =
    not (length bytes == 0)
    && (leb (length bytes) maximum_dns_label_bytes
        && ((is_ascii_lowercase (byte_at bytes 0) || is_ascii_digit (byte_at bytes 0))
            && ((is_ascii_lowercase (byte_at bytes (length bytes - 1))
                  || is_ascii_digit (byte_at bytes (length bytes - 1)))
                && all (λ b. is_ascii_lowercase b || (is_ascii_digit b || b == b'-')) bytes)))
