-- ===== src/Host/Transfer/Pieces.antt =====
-- A source cut into pieces, and the pieces put together.
use rust_plugin_sdk.Prelude.{
  ℕ, zero, suc, ◌-◌, ◌*◌, ◌≤◌, ◌≡◌, refl, sym, ap, ◌∙◌, min, List, [], ◌∷◌, ◌++◌, arith, length,
  All,
}
use rust_plugin_sdk.Host.Transfer.Defs.{take, drop}

abbrev pub pieces : ℕ → ℕ → List ℕ → List (List ℕ)
pieces zero c source = []
pieces (suc n) c source =
    take (min (length source) c) source ∷ pieces n c (drop (min (length source) c) source)

abbrev pub together : List (List ℕ) → List ℕ
together [] = []
together (p ∷ ps) = p ++ together ps

take-drop : (n : ℕ) (xs : List ℕ) → take n xs ++ drop n xs ≡ xs
take-drop zero xs = refl
take-drop (suc n) [] = refl
take-drop (suc n) (x ∷ xs) = ap (◌∷◌ x) (take-drop n xs)

pub length-drop : (n : ℕ) (xs : List ℕ) → length (drop n xs) ≡ length xs - n
length-drop zero xs = ground arith
length-drop (suc n) [] = omega arith
length-drop (suc n) (x ∷ xs) = ground (arith, length-drop n xs)

pub length-take : (n : ℕ) (xs : List ℕ) → length (take n xs) ≤ n
length-take zero xs = omega arith
length-take (suc n) [] = omega arith
length-take (suc n) (x ∷ xs) = ground (arith, length-take n xs)

empty_of : (xs : List ℕ) → length xs ≤ 0 → xs ≡ []
empty_of [] h = refl
empty_of (x ∷ xs) h = absurd (omega arith)

-- Enough pieces make up the source.
pub together-pieces :
    (n c : ℕ) (source : List ℕ) → length source ≤ n * c → together (pieces n c source) ≡ source
together-pieces zero c source h = sym (empty_of source (omega arith))
together-pieces (suc n) c source h =
    ap (λ rest. take k source ++ rest)
      (together-pieces n c (drop k source) (ground (arith, length-drop k source, h)))
    ∙ take-drop k source
  where
    k : ℕ
    k = min (length source) c

-- No piece is longer than its bound.
pub pieces_short : (n c : ℕ) (source : List ℕ) → All (λ p. length p ≤ c) (pieces n c source)
pieces_short zero c source = tt
pieces_short (suc n) c source =
    (ground (arith, length-take (min (length source) c) source), pieces_short n c _)
