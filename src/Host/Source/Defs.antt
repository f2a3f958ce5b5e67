-- ===== src/Host/Source/Defs.antt =====
-- host/artifact.rs: `validate_source`. What the calls of the source return is a parameter, and so is the
-- digest of the bytes that the hasher was given, one piece after the other. `none`: the calls are used up
-- and the loop goes on.
use rust_plugin_sdk.Prelude.{
  ℕ, ◌+◌, ◌||◌, String, Option, none, some, List, [], ◌∷◌, ◌++◌, ltb, ◌==◌, ◌!=◌, nat_eq, list_eq,
  length, if◌then◌else◌,
}
use mathlib.Core.Option.{map}
use rust_plugin_sdk.Protocol.{ArtifactDescriptor}
use rust_plugin_sdk.Error.{SdkError, Result, ok, err, panic, ◌>>=◌, ◌>>◌}
use rust_plugin_sdk.Cancellation.{Cancellation, active}
use rust_plugin_sdk.Sender.{u64_max}

-- What a call on the source returns, an error being kept as its text.
pub data IoCall {ℓ} (A : Type ℓ) : Type ℓ where
  gives : A → IoCall A
  breaks : String → IoCall A

-- A call in a biased select with the end of the action: the controller as it is read there, and the
-- call's answer, which counts only while the action is active.
pub record Attempt {ℓ} (A : Type ℓ) : Type ℓ where
  pub now : Cancellation
  pub call : IoCall A

abbrev pub answered {ℓ} : {A : Type ℓ} → String → IoCall A → Result A
answered operation (gives a) = ok a
answered operation (breaks e) = err (SdkError.runtime operation e)

unfoldable pub select_call {ℓ} : {A : Type ℓ} → String → Attempt A → Result A
select_call operation attempt =
    if attempt.now == active then answered operation attempt.call else err SdkError.cancelled

-- The bytes counted and hashed so far.
pub record Progress : Type 0 where
  pub size : ℕ
  pub hashed : List ℕ

-- A piece that was read; `none` is the end of the source.
abbrev pub count_piece : Progress → List ℕ → Result (Option Progress)
count_piece p [] = ok none
count_piece p (b ∷ bs) =
    if ltb u64_max (p.size + length (b ∷ bs))
    then err (SdkError.invalid_argument "artifact size overflowed")
    else ok (some (record { size = p.size + length (b ∷ bs); hashed = p.hashed ++ b ∷ bs }))

-- One turn of the loop.
unfoldable pub read_turn : Progress → Attempt (List ℕ) → Result (Option Progress)
unfolding select_call
read_turn p attempt = do
  piece ← select_call "read artifact source for validation" attempt
  count_piece p piece

-- `rest` is the loop after the turn.
abbrev pub next_turn :
    (Progress → Option (Result Progress))
    → Progress
    → Result (Option Progress)
    → Option (Result Progress)
next_turn rest p (ok none) = some (ok p)
next_turn rest p (ok (some q)) = rest q
next_turn rest p (err e) = some (err e)
next_turn rest p (panic m) = some (panic m)

unfoldable pub read_all : List (Attempt (List ℕ)) → Progress → Option (Result Progress)
unfolding read_turn
read_all [] p = none
read_all (a ∷ as') p = next_turn (read_all as') p (read_turn p a)

-- The position before the reads, the reads, and the seek to a position.
pub record Source : Type 0 where
  pub position : Attempt ℕ
  pub reads : List (Attempt (List ℕ))
  pub seek : ℕ → Attempt ℕ

module _ (sha256 : List ℕ → List ℕ) where
  abbrev pub matches : ArtifactDescriptor → Progress → Result (Unit {0})
  matches descriptor p =
      if p.size != descriptor.size_bytes || sha256 p.hashed != descriptor.sha256
      then err (SdkError.invalid_argument "artifact size or SHA-256 does not match its source")
      else ok tt

  -- What follows the loop.
  abbrev pub rewound : ArtifactDescriptor → Attempt ℕ → Result Progress → Result (Unit {0})
  rewound descriptor seek read = do
    p ← read
    select_call "rewind validated artifact source" seek
    matches descriptor p

  abbrev pub read_from : ArtifactDescriptor → Source → Result ℕ → Option (Result (Unit {0}))
  read_from descriptor source (err e) = some (err e)
  read_from descriptor source (panic m) = some (panic m)
  read_from descriptor source (ok start) =
      map (rewound descriptor (source.seek start))
        (read_all source.reads (record { size = 0; hashed = [] }))

  unfoldable pub validate_source : ArtifactDescriptor → Source → Option (Result (Unit {0}))
  unfolding select_call read_all
  validate_source descriptor source =
      read_from descriptor source (select_call "inspect artifact source position" source.position)
