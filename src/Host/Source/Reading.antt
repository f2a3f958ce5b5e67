-- ===== src/Host/Source/Reading.antt =====
-- What the loop of `validate_source` reads and counts.
use rust_plugin_sdk.Prelude.{
  ℕ, String, ◌+◌, ◌≤◌, ◌≡◌, ◌≢◌, ◌↔◌, ◌⊎◌, inl, inr, refl, sym, ap, subst, ◌∙◌, Option, none, some,
  List, [], ◌∷◌, ◌++◌, append-nil, append_assoc, arith, length, length-append, nat_eq, list_eq,
}
use rust_plugin_sdk.Error.{Result, ok, err, panic, >>=-ok}
use rust_plugin_sdk.Cancellation.{active}
use rust_plugin_sdk.Sender.{u64_max}
use rust_plugin_sdk.Host.Transfer.Pieces.{together}
use rust_plugin_sdk.Host.Source.Defs.{
  gives, Attempt, select_call, Progress, count_piece, read_turn, next_turn, read_all,
}

-- The call was answered, with a value, while the action was active.
abbrev pub Answers {ℓ} : {A : Type ℓ} → Attempt A → A → Type ℓ
Answers attempt a = (attempt.now ≡ active) × (attempt.call ≡ gives a)

pub Answers-select {ℓ} :
    {A : Type ℓ} (operation : String) (attempt : Attempt A) (a : A)
    → (select_call operation attempt ≡ ok a) ↔ Answers attempt a
unfolding select_call
Answers-select operation attempt a = ground arith

-- The reads give some pieces, none of them empty, and then the end of the source.
abbrev pub Reads : List (Attempt (List ℕ)) → List (List ℕ) → Type 0
Reads [] ps = ⊥
Reads (a ∷ as') [] = Answers a []
Reads (a ∷ as') (p ∷ ps) = Answers a p × (p ≢ []) × Reads as' ps

abbrev pub grown : Progress → List ℕ → Progress
grown p piece = record { size = p.size + length piece; hashed = p.hashed ++ piece }

counted :
    (p : Progress) (piece : List ℕ) (o : Option Progress)
    → count_piece p piece ≡ ok o
    → ((piece ≡ []) × (o ≡ none))
      ⊎ ((piece ≢ []) × (o ≡ some (grown p piece)) × (p.size + length piece ≤ u64_max))
counted p [] o h = ground (arith, h)
counted p (b ∷ bs) o h = ground (arith, h)

answered_turn :
    (p : Progress) (a : Attempt (List ℕ)) (o : Option Progress)
    → read_turn p a ≡ ok o
    → (piece : List ℕ) × Answers a piece × (count_piece p piece ≡ ok o)
unfolding read_turn
answered_turn p a o h =
    let (piece, got, e) = >>=-ok (select_call "read artifact source for validation" a) _ h in
    (piece, (Answers-select _ a piece).0 got, e)

turn_of :
    (p : Progress) (a : Attempt (List ℕ)) (piece : List ℕ)
    → Answers a piece
    → read_turn p a ≡ count_piece p piece
unfolding read_turn
turn_of p a piece h = rw ((Answers-select "read artifact source for validation" a piece).1 h) refl

-- What the reads leave counted, from what was counted before.
abbrev pub Counts : Progress → List (List ℕ) → Progress → Type 0
Counts p ps q =
    (q.size ≡ p.size + length (together ps))
    × (q.hashed ≡ p.hashed ++ together ps)
    × (q.size ≤ u64_max)

abbrev pub ReadsCount : List (Attempt (List ℕ)) → Progress → Progress → Type 0
ReadsCount calls p q = (ps : List (List ℕ)) × Reads calls ps × Counts p ps q

after_turn :
    (rest : Progress → Option (Result Progress)) (p : Progress) (r : Result (Option Progress))
    (q : Progress)
    → next_turn rest p r ≡ some (ok q)
    → ((r ≡ ok none) × (p ≡ q)) ⊎ ((m : Progress) × (r ≡ ok (some m)) × (rest m ≡ some (ok q)))
after_turn rest p (ok none) q h = inl (refl, ground (arith, h))
after_turn rest p (ok (some m)) q h = inr (m, refl, h)
after_turn rest p (err e) q h = ground (arith, h)
after_turn rest p (panic m) q h = ground (arith, h)

ended_counts :
    (a : Attempt (List ℕ)) (calls : List (Attempt (List ℕ))) (p : Progress) (piece : List ℕ)
    → p.size ≤ u64_max
    → Answers a piece
    → count_piece p piece ≡ ok none
    → ReadsCount (a ∷ calls) p p
ended_counts a calls p piece bound got e = elim (counted p piece none e) [
  | inl (empty, _) ↦
      ([], subst (Answers a) empty got, (omega arith, sym (append-nil p.hashed), bound))
  | inr (_, other, _) ↦ ground (arith, other)
]

grown_by :
    (p m : Progress) (piece : List ℕ)
    → count_piece p piece ≡ ok (some m)
    → (piece ≢ []) × (m ≡ grown p piece) × (p.size + length piece ≤ u64_max)
grown_by p m piece e = elim (counted p piece (some m) e) [
  | inl (_, other) ↦ ground (arith, other)
  | inr (nonempty, same, small) ↦ (nonempty, ground (arith, same), small)
]

more_counts :
    (a : Attempt (List ℕ)) (calls : List (Attempt (List ℕ))) (p q : Progress) (piece : List ℕ)
    → piece ≢ []
    → Answers a piece
    → ReadsCount calls (grown p piece) q
    → ReadsCount (a ∷ calls) p q
more_counts a calls p q piece nonempty got (ps, reads, (size, hashed, small)) = (
  piece ∷ ps,
  (got, nonempty, reads),
  (
    omega (arith, size, length-append piece (together ps)),
    hashed ∙ append_assoc p.hashed piece (together ps),
    small,
  ),
)

pub read_all-Reads :
    (calls : List (Attempt (List ℕ))) (p q : Progress)
    → p.size ≤ u64_max
    → read_all calls p ≡ some (ok q)
    → ReadsCount calls p q
unfolding read_all
read_all-Reads [] p q bound h = ground (arith, h)
read_all-Reads (a ∷ calls) p q bound h = elim (after_turn (read_all calls) p (read_turn p a) q h) [
  | inl (ended, same) ↦
      let (piece, got, e) = answered_turn p a none ended in
      subst (ReadsCount (a ∷ calls) p) same (ended_counts a calls p piece bound got e)
  | inr (m, turned, rest) ↦
      let (piece, got, e) = answered_turn p a (some m) turned in
      let (nonempty, same, small) = grown_by p m piece e in
      more_counts a calls p q piece nonempty got (
        read_all-Reads calls (grown p piece) q small
          (subst (λ x. read_all calls x ≡ some (ok q)) same rest))
]

count_grown :
    (p : Progress) (piece : List ℕ)
    → piece ≢ []
    → p.size + length piece ≤ u64_max
    → count_piece p piece ≡ ok (some (grown p piece))
count_grown p [] nonempty small = absurd (nonempty refl)
count_grown p (b ∷ bs) nonempty small = ground (arith, small)

abbrev pub nothing : Progress
nothing = record { size = 0; hashed = [] }

grown_nil : (p : Progress) → p ≡ grown p []
grown_nil p = ground (arith, append-nil p.hashed)

grown_twice : (p : Progress) (xs ys : List ℕ) → grown (grown p xs) ys ≡ grown p (xs ++ ys)
grown_twice p xs ys = ground (arith, length-append xs ys, append_assoc p.hashed xs ys)

pub Reads-back :
    (calls : List (Attempt (List ℕ))) (ps : List (List ℕ)) (p : Progress)
    → Reads calls ps
    → p.size + length (together ps) ≤ u64_max
    → read_all calls p ≡ some (ok (grown p (together ps)))
unfolding read_all
Reads-back [] ps p h small = absurd h
Reads-back (a ∷ calls) [] p h small = rw (turn_of p a [] h) (ap (λ x. some (ok x)) (grown_nil p))
Reads-back (a ∷ calls) (piece ∷ ps) p (got, nonempty, rest) small =
    let sum = length-append piece (together ps) in
    let one = count_grown p piece nonempty (omega (arith, small, sum)) in
    rw (turn_of p a piece got) (
      rw one (
        Reads-back calls ps (grown p piece) rest (omega (arith, small, sum))
        ∙ ap (λ x. some (ok x)) (grown_twice p piece (together ps))))
