-- ===== src/Value/Shape.antt =====
-- Values by their shape, against `validate`: a height and a condition on every part, each by recursion.
use Prim.Native.Nat.{max}
use rust_plugin_sdk.Prelude.{
  ℕ, suc, ◌+◌, ◌≤◌, String, ◌≡◌, ◌≢◌, refl, ◌↔◌, true, Option, none, some, List, [], ◌∷◌, arith,
  string_eq, All,
}
use rust_plugin_sdk.Prelude.Int.{pos, int_eq}
use rust_plugin_sdk.Protocol.{
  ConfigValue, ConfigList, ConfigMap, ConfigFunctionRef, unset, null_value, integer_value,
  bool_value, number_value, string_value, bytes_value, list_value, map_value, function_value,
  timestamp_value, duration_value, nil, cons, end, entry,
}
use rust_plugin_sdk.Error.{ok}
use rust_plugin_sdk.Value.Domain.{
  IsTimestamp, IsDuration, is_finite, valid_timestamp_iff, valid_duration_iff,
}
use rust_plugin_sdk.Value.Defs.{
  validate_function, validate, validate_list, validate_map, validate_serializable,
  validate_session_values,
}

-- How many containers a value's innermost element lies in.
unfoldable mutual
  pub height : ConfigValue → ℕ
  height (list_value list) = height_list list
  height (map_value map) = height_map map
  height unset = 0
  height (null_value _) = 0
  height (integer_value _) = 0
  height (bool_value _) = 0
  height (number_value _) = 0
  height (string_value _) = 0
  height (bytes_value _) = 0
  height (function_value _) = 0
  height (timestamp_value _) = 0
  height (duration_value _) = 0

  pub height_list : ConfigList → ℕ
  height_list nil = 0
  height_list (cons value values) = max (suc (height value)) (height_list values)

  pub height_map : ConfigMap → ℕ
  height_map end = 0
  height_map (entry key value entries) = max (suc (height value)) (height_map entries)

-- The handle belongs to the session and is named.
abbrev pub IsOwned : ConfigFunctionRef → Option String → Type 0
IsOwned function none = ⊥
IsOwned function (some session_id) =
    (function.session_id ≡ session_id) × (function.function_id ≢ "")

-- Every part of the value is in its domain.
abbrev mutual
  pub Sound : ConfigValue → Option String → Type 0
  Sound unset session = ⊥
  Sound (null_value value) session = value ≡ pos 0
  Sound (integer_value _) session = Unit
  Sound (bool_value _) session = Unit
  Sound (number_value bits) session = is_finite bits ≡ true
  Sound (string_value _) session = Unit
  Sound (bytes_value _) session = Unit
  Sound (list_value list) session = SoundList list session
  Sound (map_value map) session = SoundMap map session
  Sound (function_value function) session = IsOwned function session
  Sound (timestamp_value value) session = IsTimestamp value
  Sound (duration_value value) session = IsDuration value

  pub SoundList : ConfigList → Option String → Type 0
  SoundList nil session = Unit
  SoundList (cons value values) session = Sound value session × SoundList values session

  pub SoundMap : ConfigMap → Option String → Type 0
  SoundMap end session = Unit
  SoundMap (entry key value entries) session = Sound value session × SoundMap entries session

function_iff :
    (f : ConfigFunctionRef) (session : Option String)
    → (validate_function f session ≡ ok tt) ↔ IsOwned f session
function_iff f none = ground arith
function_iff f (some s) =
    ground (arith, string_eq.beq_iff f.session_id s, string_eq.beq_iff f.function_id "")

mutual
  unfolding validate height

  sound :
      (v : ConfigValue) (d : ℕ) (session : Option String)
      → validate v d session ≡ ok tt
      → (d + height v ≤ 33) × Sound v session
  sound unset d session h = ground arith
  sound (null_value n) d session h = ground (arith, int_eq.beq_iff n (pos 0))
  sound (bool_value _) d session h = ground arith
  sound (integer_value _) d session h = ground arith
  sound (string_value _) d session h = ground arith
  sound (bytes_value _) d session h = ground arith
  sound (number_value b) d session h = ground arith
  sound (function_value f) d session h = ground (arith, function_iff f session)
  sound (timestamp_value t) d session h = ground (arith, valid_timestamp_iff t)
  sound (duration_value t) d session h = ground (arith, valid_duration_iff t)
  sound (list_value l) d session h =
      let (a, b) = sound_list l (d + 1) session (ground arith) (ground arith) in (omega arith, b)
  sound (map_value m) d session h =
      let (a, b) = sound_map m (d + 1) session (ground arith) (ground arith) in (omega arith, b)

  sound_list :
      (l : ConfigList) (d : ℕ) (session : Option String)
      → d ≤ 34
      → validate_list l d session ≡ ok tt
      → (d + height_list l ≤ 34) × SoundList l session
  sound_list nil d session le h = (omega arith, tt)
  sound_list (cons v l) d session le h =
      let (a, b) = sound v d session (ground arith) in
      let (a', b') = sound_list l d session le (ground arith) in (omega arith, (b, b'))

  sound_map :
      (l : ConfigMap) (d : ℕ) (session : Option String)
      → d ≤ 34
      → validate_map l d session ≡ ok tt
      → (d + height_map l ≤ 34) × SoundMap l session
  sound_map end d session le h = (omega arith, tt)
  sound_map (entry k v l) d session le h =
      let (a, b) = sound v d session (ground arith) in
      let (a', b') = sound_map l d session le (ground arith) in (omega arith, (b, b'))

mutual
  unfolding validate height

  complete :
      (v : ConfigValue) (d : ℕ) (session : Option String)
      → d + height v ≤ 33
      → Sound v session
      → validate v d session ≡ ok tt
  complete unset d session le s = elim s [ ]
  complete (null_value n) d session le s = ground (arith, int_eq.beq_iff n (pos 0))
  complete (bool_value _) d session le s = ground arith
  complete (integer_value _) d session le s = ground arith
  complete (string_value _) d session le s = ground arith
  complete (bytes_value _) d session le s = ground arith
  complete (number_value b) d session le s = ground arith
  complete (function_value f) d session le s = ground (arith, (function_iff f session).1 s)
  complete (timestamp_value t) d session le s = ground (arith, (valid_timestamp_iff t).1 s)
  complete (duration_value t) d session le s = ground (arith, (valid_duration_iff t).1 s)
  complete (list_value l) d session le s =
      ground (arith, complete_list l (d + 1) session (omega arith) s)
  complete (map_value m) d session le s =
      ground (arith, complete_map m (d + 1) session (omega arith) s)

  complete_list :
      (l : ConfigList) (d : ℕ) (session : Option String)
      → d + height_list l ≤ 34
      → SoundList l session
      → validate_list l d session ≡ ok tt
  complete_list nil d session le s = refl
  complete_list (cons v l) d session le s =
      rw (complete v d session (omega arith) s.0) (complete_list l d session (omega arith) s.1)

  complete_map :
      (l : ConfigMap) (d : ℕ) (session : Option String)
      → d + height_map l ≤ 34
      → SoundMap l session
      → validate_map l d session ≡ ok tt
  complete_map end d session le s = refl
  complete_map (entry k v l) d session le s =
      rw (complete v d session (omega arith) s.0) (complete_map l d session (omega arith) s.1)

-- Inside `depth` containers, `validate` accepts exactly the values that reach at most depth 33 and
-- whose parts are all in their domains, with function handles of the given session alone.
pub validate_iff :
    (value : ConfigValue) (depth : ℕ) (session : Option String)
    → (validate value depth session ≡ ok tt) ↔ ((depth + height value ≤ 33) × Sound value session)
validate_iff value depth session =
    (sound value depth session, λ h. complete value depth session h.0 h.1)

-- A value with no function handles is sound in every session.
mutual
  unfolding height

  Sound-anywhere : (v : ConfigValue) (session : Option String) → Sound v none → Sound v session
  Sound-anywhere unset session s = s
  Sound-anywhere (null_value n) session s = s
  Sound-anywhere (bool_value _) session s = tt
  Sound-anywhere (integer_value _) session s = tt
  Sound-anywhere (string_value _) session s = tt
  Sound-anywhere (bytes_value _) session s = tt
  Sound-anywhere (number_value b) session s = s
  Sound-anywhere (function_value f) session s = elim s [ ]
  Sound-anywhere (timestamp_value t) session s = s
  Sound-anywhere (duration_value t) session s = s
  Sound-anywhere (list_value l) session s = Sound-anywhere-list l session s
  Sound-anywhere (map_value m) session s = Sound-anywhere-map m session s

  Sound-anywhere-list :
      (l : ConfigList) (session : Option String) → SoundList l none → SoundList l session
  Sound-anywhere-list nil session s = tt
  Sound-anywhere-list (cons v l) session s =
      (Sound-anywhere v session s.0, Sound-anywhere-list l session s.1)

  Sound-anywhere-map :
      (m : ConfigMap) (session : Option String) → SoundMap m none → SoundMap m session
  Sound-anywhere-map end session s = tt
  Sound-anywhere-map (entry k v m) session s =
      (Sound-anywhere v session s.0, Sound-anywhere-map m session s.1)

-- Values that may be stored may all be passed to a configuration function, in any session.
pub serializable_in_session :
    (values : List ConfigValue) (session_id : String)
    → All (λ v. validate_serializable v ≡ ok tt) values
    → validate_session_values values session_id ≡ ok tt
unfolding validate_serializable validate_session_values
serializable_in_session [] session_id h = refl
serializable_in_session (v ∷ values) session_id h =
    let (low, s) = sound v 0 none h.0 in
    rw (complete v 0 (some session_id) low (Sound-anywhere v (some session_id) s))
      (serializable_in_session values session_id h.1)
