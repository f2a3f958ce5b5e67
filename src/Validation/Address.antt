-- ===== src/Validation/Address.antt =====
-- The part of Rust's std::net that validation.rs uses: `IpAddr::from_str` and `is_loopback`. The parser
-- works on the bytes of its text; a part that does not fit gives its bytes back.
use rust_plugin_sdk.Prelude.{
  ℕ, zero, suc, ◌+◌, ◌-◌, ◌*◌, Bool, true, false, not, ◌&&◌, Option, none, some, List, [], ◌∷◌,
  ◌++◌, leb, ltb, ◌==◌, nat_eq, list_eq, length, if◌then◌else◌,
}

-- `char::to_digit(10)` and `char::to_digit(16)`.
abbrev pub decimal_digit : ℕ → Option ℕ
decimal_digit b = if leb b'0' b && leb b b'9' then some (b - b'0') else none

abbrev pub hex_digit : ℕ → Option ℕ
hex_digit b =
    if leb b'0' b && leb b b'9'
    then some (b - b'0')
    else if leb b'a' b && leb b b'f'
    then some (b - b'a' + 10)
    else if leb b'A' b && leb b b'F'
    then some (b - b'A' + 10)
    else none

-- What was read, and the bytes that are left.
abbrev pub Read : Type 0 → Type 0
Read A = Option (A × List ℕ)

infixl 5 ◌>>=◌
abbrev ◌>>=◌ : {A B : Type 0} → Read A → (A × List ℕ → Read B) → Read B
none >>= f = none
some r >>= f = f r

-- The digits of a number, at most `most` of them, with their value and their number.
module _ (digit : ℕ → Option ℕ) (radix most : ℕ) where
  unfoldable pub read_digits : ℕ → ℕ → List ℕ → Read (ℕ × ℕ)
  read_digits count value [] = some ((value, count), [])
  read_digits count value (b ∷ bs) = elim (digit b) [
    | none ↦ some ((value, count), b ∷ bs)
    | some d ↦ elim (ltb most (count + 1)) [
      | true ↦ none
      | false ↦ read_digits (count + 1) (value * radix + d) bs
    ]
  ]

  abbrev leads_with_zero : List ℕ → Bool
  leads_with_zero [] = false
  leads_with_zero (b ∷ bs) = b == b'0'

  -- `read_number`, into an integer of at most `limit`.
  unfoldable pub read_number : Bool → ℕ → List ℕ → Read ℕ
  unfolding read_digits
  read_number allow_zero_prefix limit bs = read_digits 0 0 bs >>= λ ((value, count), rest).
      if count == 0
      then none
      else if not allow_zero_prefix && (leads_with_zero bs && ltb 1 count)
      then none
      else if leb value limit
      then some (value, rest)
      else none

abbrev pub read_given : ℕ → List ℕ → Read (Unit {0})
read_given c [] = none
read_given c (b ∷ bs) = if b == c then some (tt, bs) else none

-- `read_separator`: the separator stands before all but the first.
abbrev pub read_separator : {A : Type 0} → ℕ → ℕ → (List ℕ → Read A) → List ℕ → Read A
read_separator separator index inner bs =
    if index == 0 then inner bs else (read_given separator bs >>= λ (_, rest). inner rest)

pub record Ipv4 : Type 0 where
  pub a : ℕ
  pub b : ℕ
  pub c : ℕ
  pub d : ℕ

abbrev pub read_octet : ℕ → List ℕ → Read ℕ
read_octet index bs = read_separator b'.' index (read_number decimal_digit 10 3 false 255) bs

unfoldable pub read_ipv4 : List ℕ → Read Ipv4
unfolding read_number
read_ipv4 bs = read_octet 0 bs >>= λ (a, r1). read_octet 1 r1 >>= λ (b, r2).
    read_octet 2 r2 >>= λ (c, r3).
    read_octet 3 r3 >>= λ (d, r4). some (record { a = a; b = b; c = c; d = d }, r4)

-- Some groups of an IPv6 address, whether an IPv4 address closes them, and the bytes that are left.
pub record Groups : Type 0 where
  pub groups : List ℕ
  pub embedded : Bool
  pub left : List ℕ

abbrev pub add_group : ℕ → Groups → Groups
add_group g r = record r { groups = g ∷ r.groups }

abbrev pub read_group : ℕ → List ℕ → Read ℕ
read_group index bs = read_separator b':' index (read_number hex_digit 16 4 true 65535) bs

-- An IPv4 address may close the groups where two of them are still to come.
abbrev pub read_embedded : ℕ → ℕ → List ℕ → Read Ipv4
read_embedded zero index bs = none
read_embedded (suc others) index bs = read_separator b':' index read_ipv4 bs

abbrev pub after_embedded : Read Ipv4 → Groups → Groups
after_embedded (some (v4, rest)) other = record {
  groups = (v4.a * 256 + v4.b) ∷ (v4.c * 256 + v4.d) ∷ [];
  embedded = true;
  left = rest;
}
after_embedded none other = other

abbrev pub after_group : Read ℕ → (List ℕ → Groups) → List ℕ → Groups
after_group (some (g, rest)) more bs = add_group g (more rest)
after_group none more bs = record { groups = []; embedded = false; left = bs }

-- `read_groups` into a slice of `slots` groups, the next of which is `index`.
unfoldable pub read_groups : ℕ → ℕ → List ℕ → Groups
unfolding read_ipv4 read_number
read_groups zero index bs = record { groups = []; embedded = false; left = bs }
read_groups (suc slots) index bs =
    after_embedded (read_embedded slots index bs)
      (after_group (read_group index bs) (read_groups slots (index + 1)) bs)

abbrev pub zeros : ℕ → List ℕ
zeros zero = []
zeros (suc n) = 0 ∷ zeros n

-- What follows the groups before the `::`.
abbrev pub read_tail : List ℕ → List ℕ → Read (List ℕ)
unfolding read_groups
read_tail head bs =
    let tail = read_groups (8 - (length head + 1)) 0 bs in
    some (head ++ (zeros (8 - length head - length tail.groups) ++ tail.groups), tail.left)

unfoldable pub read_ipv6 : List ℕ → Read (List ℕ)
unfolding read_groups
read_ipv6 bs =
    let head = read_groups 8 0 bs in
    if length head.groups == 8
    then some (head.groups, head.left)
    else if head.embedded
    then none
    else (read_given b':' head.left >>= λ (_, r1).
        read_given b':' r1 >>= λ (_, r2). read_tail head.groups r2)

pub data IpAddr : Type 0 where
  v4 : Ipv4 → IpAddr
  v6 : List ℕ → IpAddr

abbrev pub whole : {A : Type 0} → Read A → Option A
whole none = none
whole (some (a, [])) = some a
whole (some (a, b ∷ bs)) = none

abbrev pub read_ip : Read Ipv4 → Read (List ℕ) → Read IpAddr
read_ip (some (a, rest)) other = some (IpAddr.v4 a, rest)
read_ip none other = other >>= λ (groups, rest). some (IpAddr.v6 groups, rest)

-- `str::parse::<IpAddr>`.
unfoldable pub parse_ip : List ℕ → Option IpAddr
unfolding read_ipv4 read_ipv6
parse_ip bs = whole (read_ip (read_ipv4 bs) (read_ipv6 bs))

unfoldable pub is_loopback : IpAddr → Bool
is_loopback (IpAddr.v4 address) = address.a == 127
is_loopback (IpAddr.v6 groups) = groups == 0 ∷ 0 ∷ 0 ∷ 0 ∷ 0 ∷ 0 ∷ 0 ∷ 1 ∷ []
