-- ===== src/Validation/PluginId.antt =====
-- Plugin IDs by their grammar, against `plugin_id`.
use rust_plugin_sdk.Prelude.{
  ℕ, ◌≤◌, String, ◌≡◌, refl, ap, sym, ◌∙◌, ◌≢◌, ◌↔◌, inl, inr, true, List, [], ◌∷◌, ◌++◌, arith,
  ◌==◌, nat_eq, length, all, All, Bool-cases,
}
use rust_plugin_sdk.Prelude.Text.{bytes}
use rust_plugin_sdk.Error.{ok}
use rust_plugin_sdk.Validation.Bytes.{cons_head, split, valid_dns_label}
use rust_plugin_sdk.Validation.Defs.{plugin_id}
use rust_plugin_sdk.Validation.Labels.{
  IsDnsLabel, IsLabelByte, IsDnsLabel-bytes, valid_dns_label_iff,
}

-- The pieces with the separator between them.
abbrev pub join : ℕ → List (List ℕ) → List ℕ
join c [] = []
join c (l ∷ []) = l
join c (l ∷ m ∷ ls) = l ++ c ∷ join c (m ∷ ls)

-- Two labels or more, joined by dots, of at most 191 bytes in all.
abbrev pub IsPluginId : List ℕ → Type 0
IsPluginId bs =
    (labels : List (List ℕ)) × (bs ≡ join b'.' labels)
    × (2 ≤ length labels)
    × All IsDnsLabel labels
    × (length bs ≤ 191)

split_cases : (c : ℕ) (bs : List ℕ) → (l : List ℕ) × (ls : List (List ℕ)) × (split c bs ≡ l ∷ ls)
unfolding split
split_cases c [] = ([], [], refl)
split_cases c (b ∷ bs) =
    let (l, ls, e) = split_cases c bs in
    elim (Bool-cases (b == c)) [
      | inl hit ↦ ([], split c bs, ground arith)
      | inr miss ↦ (b ∷ l, ls, ground (arith, e))
    ]

join-cons_head :
    (c b : ℕ) (l : List ℕ) (ls : List (List ℕ))
    → join c (cons_head b (l ∷ ls)) ≡ b ∷ join c (l ∷ ls)
join-cons_head c b l [] = refl
join-cons_head c b l (m ∷ ls) = refl

-- `split` loses nothing.
join-split : (c : ℕ) (bs : List ℕ) → join c (split c bs) ≡ bs
unfolding split
join-split c [] = refl
join-split c (b ∷ bs) =
    let (l, ls, e) = split_cases c bs in
    elim (Bool-cases (b == c)) [
      | inl hit ↦ ground (arith, e, join-split c bs)
      | inr miss ↦
          rw (miss, e)
            (join-cons_head c b l ls ∙ ap (◌∷◌ b) (ap (join c) (sym e) ∙ join-split c bs))
    ]

split_piece : (c : ℕ) (l : List ℕ) → All (λ b. b ≢ c) l → split c l ≡ l ∷ []
unfolding split
split_piece c [] h = refl
split_piece c (b ∷ l) h = rw (split_piece c l h.1) (ground arith)

split-append :
    (c : ℕ) (l rest : List ℕ) → All (λ b. b ≢ c) l → split c (l ++ c ∷ rest) ≡ l ∷ split c rest
unfolding split
split-append c [] rest h = ground arith
split-append c (b ∷ l) rest h = rw (split-append c l rest h.1) (ground arith)

-- `split` undoes `join` where no piece holds the separator.
split-join :
    (c : ℕ) (l : List ℕ) (ls : List (List ℕ))
    → All (All (λ b. b ≢ c)) (l ∷ ls)
    → split c (join c (l ∷ ls)) ≡ l ∷ ls
split-join c l [] h = split_piece c l h.0
split-join c l (m ∷ ls) h =
    split-append c l (join c (m ∷ ls)) h.0 ∙ ap (◌∷◌ l) (split-join c m ls h.1)

no_dots : (bs : List ℕ) → All IsLabelByte bs → All (λ b. b ≢ b'.') bs
no_dots [] h = tt
no_dots (b ∷ bs) h = (omega (arith, h.0), no_dots bs h.1)

labels_no_dots : (ls : List (List ℕ)) → All IsDnsLabel ls → All (All (λ b. b ≢ b'.')) ls
labels_no_dots [] h = tt
labels_no_dots (l ∷ ls) h = (no_dots l (IsDnsLabel-bytes l h.0), labels_no_dots ls h.1)

valid-All : (ls : List (List ℕ)) → all valid_dns_label ls ≡ true → All IsDnsLabel ls
valid-All [] h = tt
valid-All (l ∷ ls) h = ((valid_dns_label_iff l).0 (ground arith), valid-All ls (ground arith))

All-valid : (ls : List (List ℕ)) → All IsDnsLabel ls → all valid_dns_label ls ≡ true
All-valid [] h = refl
All-valid (l ∷ ls) h = ground (arith, (valid_dns_label_iff l).1 h.0, All-valid ls h.1)

split_labels :
    (labels : List (List ℕ))
    → 2 ≤ length labels
    → All IsDnsLabel labels
    → split b'.' (join b'.' labels) ≡ labels
split_labels [] two h = absurd (omega arith)
split_labels (l ∷ ls) two h = split-join b'.' l ls (labels_no_dots (l ∷ ls) h)

plugin_id_sound : (value : String) → plugin_id value ≡ ok tt → IsPluginId (bytes value)
unfolding plugin_id
plugin_id_sound value h = (
  split b'.' (bytes value),
  sym (join-split b'.' (bytes value)),
  ground arith,
  valid-All _ (ground arith),
  ground arith,
)

plugin_id_complete : (value : String) → IsPluginId (bytes value) → plugin_id value ≡ ok tt
unfolding plugin_id
plugin_id_complete value (labels, e, two, valid, short) =
    let pieces = ap (split b'.') e ∙ split_labels labels two valid in
    ground (arith, pieces, All-valid labels valid)

-- `plugin_id` accepts a text exactly if its bytes are at least two DNS labels joined by dots, at most
-- 191 bytes long.
pub plugin_id_iff : (value : String) → (plugin_id value ≡ ok tt) ↔ IsPluginId (bytes value)
plugin_id_iff value = (plugin_id_sound value, plugin_id_complete value)
