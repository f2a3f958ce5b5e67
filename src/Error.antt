-- ===== src/Error.antt =====
-- runtime/error.rs: `SdkError`, its text and its translation into a wire error; results as values.
use Prim.Native.String.{◌++◌}
use rust_plugin_sdk.Prelude.{String, ◌≡◌, refl, Bool, true, false, Option, none, some, []}
use rust_plugin_sdk.Protocol.{ProtocolError, ErrorCode, error_code}

-- The source of a runtime failure is kept as its text, all that the runtime reads of it.
pub data SdkError : Type 0 where
  environment invalid_argument transport protocol action : String → SdkError
  host : ProtocolError → SdkError
  cancelled : SdkError
  runtime : String → String → SdkError

-- `Display`.
unfoldable pub to_string : SdkError → String
to_string (SdkError.environment m) = m
to_string (SdkError.invalid_argument m) = m
to_string (SdkError.transport m) = m
to_string (SdkError.protocol m) = m
to_string (SdkError.action m) = m
to_string (SdkError.host e) = e.message
to_string SdkError.cancelled = "action was cancelled"
to_string (SdkError.runtime operation source) = operation ++ ": " ++ source

-- The code of an error that is not the host's own; `host` is unreachable there.
abbrev pub own_code : SdkError → ErrorCode
own_code (SdkError.invalid_argument _) = ErrorCode.invalid_argument
own_code (SdkError.environment _) = ErrorCode.unavailable
own_code (SdkError.transport _) = ErrorCode.unavailable
own_code (SdkError.runtime _ _) = ErrorCode.unavailable
own_code (SdkError.protocol _) = ErrorCode.failed_precondition
own_code (SdkError.action _) = ErrorCode.internal
own_code SdkError.cancelled = ErrorCode.cancelled
own_code (SdkError.host _) = ErrorCode.internal

abbrev pub is_retryable : SdkError → Bool
is_retryable (SdkError.environment _) = true
is_retryable (SdkError.transport _) = true
is_retryable (SdkError.runtime _ _) = true
is_retryable _ = false

abbrev own_error : SdkError → ProtocolError
own_error e = record {
  code = error_code (own_code e);
  message = to_string e;
  retryable = is_retryable e;
  metadata = [];
  details = [];
}

unfoldable pub protocol_error : SdkError → ProtocolError
unfolding to_string
protocol_error (SdkError.host e) = e
protocol_error (SdkError.environment m) = own_error (SdkError.environment m)
protocol_error (SdkError.invalid_argument m) = own_error (SdkError.invalid_argument m)
protocol_error (SdkError.transport m) = own_error (SdkError.transport m)
protocol_error (SdkError.protocol m) = own_error (SdkError.protocol m)
protocol_error (SdkError.action m) = own_error (SdkError.action m)
protocol_error SdkError.cancelled = own_error SdkError.cancelled
protocol_error (SdkError.runtime o m) = own_error (SdkError.runtime o m)

-- How a call ends: with a value, with an error, or in a panic with its message.
pub data Result {κ} (V : Type κ) : Type κ where
  panic : String → Result V
  err : SdkError → Result V
  ok : V → Result V

infixl 5 ◌>>=◌ ◌>>◌
abbrev pub ◌>>=◌ {κ μ} : {V : Type κ} {W : Type μ} → Result V → (V → Result W) → Result W
panic message >>= next = panic message
err error >>= next = err error
ok value >>= next = next value

abbrev pub ◌>>◌ {κ μ} : {V : Type κ} {W : Type μ} → Result V → Result W → Result W
first >> second = first >>= λ _. second

-- `ok_or`, and `then_some(()).ok_or`.
abbrev pub ok_or {ℓ} : {A : Type ℓ} → Option A → SdkError → Result A
ok_or (some a) e = ok a
ok_or none e = err e

abbrev pub ensure : Bool → SdkError → Result (Unit {0})
ensure true e = ok tt
ensure false e = err e

abbrev pub is_ok {ℓ} : {A : Type ℓ} → Result A → Bool
is_ok (ok a) = true
is_ok (err e) = false
is_ok (panic m) = false

-- `Option::expect`.
abbrev pub expect {ℓ} : {A : Type ℓ} → Option A → String → Result A
expect (some a) message = ok a
expect none message = panic message

-- The value of a bind that succeeds.
pub >>=-ok {κ μ} :
    {V : Type κ} {W : Type μ} (first : Result V) (next : V → Result W) {result : W}
    → (first >>= next) ≡ ok result
    → (value : V) × (first ≡ ok value) × (next value ≡ ok result)
>>=-ok (panic message) next same = cc
>>=-ok (err error) next same = cc
>>=-ok (ok value) next same = (value, refl, same)
