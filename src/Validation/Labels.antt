-- ===== src/Validation/Labels.antt =====
-- DNS labels by their grammar, against `valid_dns_label`.
use rust_plugin_sdk.Prelude.{
  ℕ, suc, ◌-◌, ◌≤◌, ◌≡◌, refl, ap, subst, ◌∙◌, ◌↔◌, ◌⊎◌, inl, Bool, true, ◌||◌, List, [], ◌∷◌, ◌++◌,
  arith, ◌==◌, nat_eq, length, length-append, all, All,
}
use rust_plugin_sdk.Validation.Bytes.{byte_at, is_ascii_lowercase, is_ascii_digit, valid_dns_label}

abbrev pub IsAlphanumeric : ℕ → Type 0
IsAlphanumeric b = ((b'a' ≤ b) × (b ≤ b'z')) ⊎ ((b'0' ≤ b) × (b ≤ b'9'))

abbrev pub IsLabelByte : ℕ → Type 0
IsLabelByte b = IsAlphanumeric b ⊎ (b ≡ b'-')

-- A letter or digit alone, or two of them round at most 61 letters, digits and hyphens.
pub data IsDnsLabel (bs : List ℕ) : Type 0 where
  single : (a : ℕ) → IsAlphanumeric a → bs ≡ a ∷ [] → IsDnsLabel bs
  longer :
      (a z : ℕ) (middle : List ℕ)
      → IsAlphanumeric a
      → All IsLabelByte middle
      → IsAlphanumeric z
      → length middle ≤ 61
      → bs ≡ a ∷ (middle ++ z ∷ [])
      → IsDnsLabel bs

abbrev alphanumeric : ℕ → Bool
alphanumeric b = is_ascii_lowercase b || is_ascii_digit b

abbrev label_byte : ℕ → Bool
label_byte b = is_ascii_lowercase b || (is_ascii_digit b || b == b'-')

alphanumeric_iff : (b : ℕ) → (alphanumeric b ≡ true) ↔ IsAlphanumeric b
alphanumeric_iff b = ground arith

label_byte_iff : (b : ℕ) → (label_byte b ≡ true) ↔ IsLabelByte b
label_byte_iff b = ground arith

all-label_byte : (bs : List ℕ) → all label_byte bs ≡ true → All IsLabelByte bs
all-label_byte [] h = tt
all-label_byte (b ∷ bs) h = ((label_byte_iff b).0 (ground arith), all-label_byte bs (ground arith))

label_byte-All : (bs : List ℕ) → All IsLabelByte bs → all label_byte bs ≡ true
label_byte-All [] h = refl
label_byte-All (b ∷ bs) h = ground (arith, (label_byte_iff b).1 h.0, label_byte-All bs h.1)

-- A list with a last element, and what is before it.
unsnoc :
    (b : ℕ) (bs : List ℕ) → (ini : List ℕ) × (b ∷ bs ≡ ini ++ byte_at (b ∷ bs) (length bs) ∷ [])
unsnoc b [] = ([], refl)
unsnoc b (c ∷ bs) = let (ini, e) = unsnoc c bs in (b ∷ ini, ap (◌∷◌ b) e)

All-init : (P : ℕ → Type 0) (xs : List ℕ) (z : ℕ) → All P (xs ++ z ∷ []) → All P xs
All-init P [] z h = tt
All-init P (x ∷ xs) z h = (h.0, All-init P xs z h.1)

byte_at-last : (xs : List ℕ) (z : ℕ) → byte_at (xs ++ z ∷ []) (length xs) ≡ z
byte_at-last [] z = refl
byte_at-last (x ∷ xs) z = byte_at-last xs z

All-snoc : (P : ℕ → Type 0) (xs : List ℕ) (z : ℕ) → All P xs → P z → All P (xs ++ z ∷ [])
All-snoc P [] z h hz = (hz, tt)
All-snoc P (x ∷ xs) z h hz = (h.0, All-snoc P xs z h.1 hz)

last_index : (n : ℕ) → suc (suc n) - 1 ≡ suc n
last_index n = omega arith

label_parts :
    (a c : ℕ) (bs : List ℕ)
    → valid_dns_label (a ∷ c ∷ bs) ≡ true
    → (alphanumeric a ≡ true)
      × (alphanumeric (byte_at (c ∷ bs) (length bs)) ≡ true)
      × (all label_byte (c ∷ bs) ≡ true)
      × (length bs ≤ 61)
unfolding valid_dns_label
label_parts a c bs h =
    let g = rw last_index at h in (ground arith, ground arith, ground arith, ground arith)

label_of_valid : (bs : List ℕ) → valid_dns_label bs ≡ true → IsDnsLabel bs
unfolding valid_dns_label
label_of_valid [] h = cc
label_of_valid (a ∷ []) h = single a (ground arith) refl
label_of_valid (a ∷ c ∷ bs) h =
    let (ini, e) = unsnoc c bs in
    let (first, last, inner, short) = label_parts a c bs h in
    longer a (byte_at (c ∷ bs) (length bs)) ini ((alphanumeric_iff a).0 first)
      (All-init IsLabelByte ini (byte_at (c ∷ bs) (length bs))
        (subst (All IsLabelByte) e (all-label_byte (c ∷ bs) inner)))
      ((alphanumeric_iff _).0 last)
      (omega (arith, ap length e, length-append ini (byte_at (c ∷ bs) (length bs) ∷ [])))
      (ap (◌∷◌ a) e)

length-snoc : (xs : List ℕ) (z : ℕ) → length (xs ++ z ∷ []) ≡ suc (length xs)
length-snoc xs z = length-append xs (z ∷ []) ∙ omega arith

longer_valid :
    (a z : ℕ) (middle : List ℕ)
    → alphanumeric a ≡ true
    → alphanumeric z ≡ true
    → all label_byte (middle ++ z ∷ []) ≡ true
    → length middle ≤ 61
    → valid_dns_label (a ∷ (middle ++ z ∷ [])) ≡ true
unfolding valid_dns_label
longer_valid a z middle ha hz hm short =
    rw (length-snoc middle z, last_index, byte_at-last middle z) (ground arith)

valid_of_label : (bs : List ℕ) → IsDnsLabel bs → valid_dns_label bs ≡ true
unfolding valid_dns_label
valid_of_label bs (single a h e) = rw e (ground arith)
valid_of_label bs (longer a z middle ha hm hz short e) = rw e (
    longer_valid a z middle ((alphanumeric_iff a).1 ha) ((alphanumeric_iff z).1 hz)
      (label_byte-All _ (All-snoc IsLabelByte middle z hm (inl hz))) short)

-- `valid_dns_label` accepts exactly the labels of the grammar: 1 to 63 lower-case letters, digits
-- and hyphens, the first and the last being no hyphen.
pub valid_dns_label_iff : (bs : List ℕ) → (valid_dns_label bs ≡ true) ↔ IsDnsLabel bs
valid_dns_label_iff bs = (label_of_valid bs, valid_of_label bs)

-- A label has no dot, and no byte but letters, digits and hyphens.
pub IsDnsLabel-bytes : (bs : List ℕ) → IsDnsLabel bs → All IsLabelByte bs
IsDnsLabel-bytes bs (single a h e) = rw e (inl h, tt)
IsDnsLabel-bytes bs (longer a z middle ha hm hz short e) =
    rw e (inl ha, All-snoc IsLabelByte middle z hm (inl hz))
