-- ===== src/Host/Source/Checked.antt =====
-- What a validated source is.
use rust_plugin_sdk.Prelude.{
  ℕ, ◌≤◌, ◌≡◌, ◌↔◌, refl, sym, ap, ◌∙◌, Option, none, some, List, arith, length, nat_eq, list_eq,
  list_beq_iff,
}
use mathlib.Core.Option.{map}
use rust_plugin_sdk.Protocol.{ArtifactDescriptor}
use rust_plugin_sdk.Error.{Result, ok, err, panic, >>=-ok}
use rust_plugin_sdk.Sender.{u64_max}
use rust_plugin_sdk.Host.Transfer.Pieces.{together}
use rust_plugin_sdk.Host.Source.Defs.{
  Attempt, select_call, Progress, read_all, Source, matches, rewound, read_from, validate_source,
}
use rust_plugin_sdk.Host.Source.Reading.{
  Answers, Answers-select, Reads, grown, nothing, read_all-Reads, Reads-back,
}

module _ (sha256 : List ℕ → List ℕ) where
  matched :
      (descriptor : ArtifactDescriptor) (p : Progress)
      → (matches sha256 descriptor p ≡ ok tt)
        ↔ ((p.size ≡ descriptor.size_bytes) × (sha256 p.hashed ≡ descriptor.sha256))
  matched descriptor p = ground (arith, list_beq_iff (sha256 p.hashed) descriptor.sha256)

  -- The source has a position and can be rewound to it, its reads give pieces and then its end, and the
  -- pieces together have the size and the digest of the descriptor.
  abbrev pub IsSourceOf : ArtifactDescriptor → Source → Type 0
  IsSourceOf descriptor source =
      (start : ℕ) × (pieces : List (List ℕ)) × (end : ℕ) × Answers source.position start
      × Reads source.reads pieces
      × Answers (source.seek start) end
      × (length (together pieces) ≡ descriptor.size_bytes)
      × (sha256 (together pieces) ≡ descriptor.sha256)
      × (length (together pieces) ≤ u64_max)

  read_to_end :
      (descriptor : ArtifactDescriptor) (seek : Attempt ℕ) (o : Option (Result Progress))
      → map (rewound sha256 descriptor seek) o ≡ some (ok tt)
      → (q : Progress) × (o ≡ some (ok q))
        × ((end : ℕ) × Answers seek end)
        × (matches sha256 descriptor q ≡ ok tt)
  read_to_end descriptor seek none h = ground (arith, h)
  read_to_end descriptor seek (some (panic m)) h = ground (arith, h)
  read_to_end descriptor seek (some (err e)) h = ground (arith, h)
  read_to_end descriptor seek (some (ok q)) h =
      let whole : rewound sha256 descriptor seek (ok q) ≡ ok tt = ground (arith, h) in
      let (end, sought, same) =
        >>=-ok (select_call "rewind validated artifact source" seek) _ whole in
      (q, refl, (end, (Answers-select _ seek end).0 sought), same)

  positioned :
      (descriptor : ArtifactDescriptor) (source : Source) (r : Result ℕ)
      → read_from sha256 descriptor source r ≡ some (ok tt)
      → (start : ℕ) × (r ≡ ok start)
        × (map (rewound sha256 descriptor (source.seek start)) (read_all source.reads nothing)
            ≡ some (ok tt))
  positioned descriptor source (ok start) h = (start, refl, h)
  positioned descriptor source (err e) h = ground (arith, h)
  positioned descriptor source (panic m) h = ground (arith, h)

  source_of :
      (descriptor : ArtifactDescriptor) (source : Source)
      → validate_source sha256 descriptor source ≡ some (ok tt)
      → IsSourceOf descriptor source
  unfolding validate_source
  source_of descriptor source h =
      let (start, got, e1) = positioned descriptor source _ h in
      let (q, read, (end, sought), same) =
        read_to_end descriptor (source.seek start) (read_all source.reads nothing) e1 in
      let (ps, reads, (size, hashed, small)) =
        read_all-Reads source.reads nothing q (omega arith) read in
      let (sized, digest) = (matched descriptor q).0 same in
      (
        start,
        ps,
        end,
        (Answers-select _ source.position start).0 got,
        reads,
        sought,
        omega (arith, size, sized),
        ap sha256 (sym hashed) ∙ digest,
        omega (arith, size, small),
      )

  valid_source :
      (descriptor : ArtifactDescriptor) (source : Source)
      → IsSourceOf descriptor source
      → validate_source sha256 descriptor source ≡ some (ok tt)
  unfolding validate_source
  valid_source descriptor source (start, ps, end, got, reads, sought, size, digest, small) =
      rw ((Answers-select "inspect artifact source position" source.position start).1 got) (
        rw (Reads-back source.reads ps nothing reads (omega (arith, small))) (
          rw ((Answers-select "rewind validated artifact source" (source.seek start) end).1 sought)
            (ap some (
              (matched descriptor (grown nothing (together ps))).1 (omega (arith, size), digest)))))

  -- A source is valid exactly if its position is known, it is read to its end in pieces and rewound to
  -- that position, all while the action is active, and the pieces together have the size, at most 2^64 - 1,
  -- and the digest of the descriptor.
  pub validate_source_iff :
      (descriptor : ArtifactDescriptor) (source : Source)
      → (validate_source sha256 descriptor source ≡ some (ok tt)) ↔ IsSourceOf descriptor source
  validate_source_iff descriptor source =
      (source_of descriptor source, valid_source descriptor source)
