-- ===== src/Value/Domain.antt =====
-- The domains of runtime/value.rs: protobuf timestamps and durations, and finite numbers.
use rust_plugin_sdk.Prelude.{
  ℕ, ◌/◌, ◌%◌, ◌^◌, ◌≤◌, ◌≡◌, ◌↔◌, ◌⊎◌, Bool, true, ◌&&◌, not, arith, ◌==◌, nat_eq,
}
use rust_plugin_sdk.Prelude.Int.{ℤ, pos, negsuc, within, ltb_ℤ, pos_part, neg_part, ◌≤ℤ◌}
use rust_plugin_sdk.Protocol.{Timestamp, Duration}

-- Year 1 to year 9999.
abbrev pub timestamp_min_seconds : ℤ
timestamp_min_seconds = negsuc 62135596799

abbrev pub timestamp_max_seconds : ℤ
timestamp_max_seconds = pos 253402300799

abbrev pub duration_max_seconds : ℤ
duration_max_seconds = pos 315576000000

abbrev pub duration_min_seconds : ℤ
duration_min_seconds = negsuc 315575999999

abbrev pub max_nanoseconds : ℤ
max_nanoseconds = pos 999999999

abbrev pub min_nanoseconds : ℤ
min_nanoseconds = negsuc 999999998

unfoldable pub valid_timestamp : Timestamp → Bool
valid_timestamp t =
    within timestamp_min_seconds timestamp_max_seconds t.seconds
    && within (pos 0) max_nanoseconds t.nanos

unfoldable pub valid_duration : Duration → Bool
valid_duration d =
    within duration_min_seconds duration_max_seconds d.seconds
    && (within min_nanoseconds max_nanoseconds d.nanos
        && (not (ltb_ℤ (pos 0) d.seconds && ltb_ℤ d.nanos (pos 0))
            && not (ltb_ℤ d.seconds (pos 0) && ltb_ℤ (pos 0) d.nanos)))

-- `f64::is_finite`: the exponent is not all ones.
unfoldable pub is_finite : ℕ → Bool
is_finite bits = not ((bits / 2 ^ 52) % 2 ^ 11 == 2047)

abbrev pub IsTimestamp : Timestamp → Type 0
IsTimestamp t =
    (timestamp_min_seconds ≤ℤ t.seconds)
    × (t.seconds ≤ℤ timestamp_max_seconds)
    × (pos 0 ≤ℤ t.nanos)
    × (t.nanos ≤ℤ max_nanoseconds)

-- At most 10000 years either way, and seconds and nanoseconds of one sign: both are nonnegative, or
-- both are nonpositive.
abbrev pub IsDuration : Duration → Type 0
IsDuration d =
    ((pos 0 ≤ℤ d.seconds)
      × (pos 0 ≤ℤ d.nanos)
      × (pos_part d.seconds ≤ 315576000000)
      × (pos_part d.nanos ≤ 999999999))
    ⊎ ((d.seconds ≤ℤ pos 0)
        × (d.nanos ≤ℤ pos 0)
        × (neg_part d.seconds ≤ 315576000000)
        × (neg_part d.nanos ≤ 999999999))

pub valid_timestamp_iff : (t : Timestamp) → (valid_timestamp t ≡ true) ↔ IsTimestamp t
unfolding valid_timestamp
valid_timestamp_iff t = ground arith

-- `valid_duration` accepts exactly the protobuf durations: at most 10000 years either way, with
-- seconds and nanoseconds of one sign.
pub valid_duration_iff : (d : Duration) → (valid_duration d ≡ true) ↔ IsDuration d
unfolding valid_duration
valid_duration_iff d = ground arith
