-- ===== src/Error.antt =====
-- src/error.rs: the error type of the crate, its conversion to Python exceptions, and the result
-- type of every fallible call.
use membridge.Common.{ℕ, String, ◌≡◌, refl, ◌⊎◌, inl, inr}

-- The text of an error, one constructor for each format string of the crate, with the values that
-- it interpolates.
pub data Message : Type 0 where
  cursor_out_of_bounds : (cursor needed total : ℕ) → Message
  unsupported_type : (type_name : String) → Message
  not_enough_data : (tag : String) (need have : ℕ) → Message
  not_enough_bool not_enough_prefix : Message
  not_enough_payload : (need have : ℕ) → Message
  unknown_tag unknown_schema_tag : (tag : String) → Message
  schema_entry : Message
  message_too_large : (frame_len cap map_size : ℕ) → Message
  map_too_small : Message
  capacity_not_power_of_two : (capacity below above : ℕ) → Message
  segment_too_small : Message
  length_zero : Message
  out_of_bounds : (offset length data_size : ℕ) → Message
  seek_out_of_range : (pos data_size : ℕ) → Message
  no_data : Message
  size_zero : Message
  name_without_slash name_too_short : Message
  nul_in_name : (text : String) → Message
  size_required : Message
  system : (text : String) → Message

-- `enum ShmError`
pub data ShmError : Type 0 where
  os invalid_arg permission : Message → ShmError

-- `impl Display for ShmError`: the text in front of the message, and the message.
unfoldable pub displayed : ShmError → String × Message
displayed (os msg) = ("OS error: ", msg)
displayed (invalid_arg msg) = ("Invalid argument: ", msg)
displayed (permission msg) = ("Permission denied: ", msg)

-- `impl From<nix::errno::Errno> for ShmError`, on the text of the error.
unfoldable pub from_errno : String → ShmError
from_errno text = ShmError.os (system text)

-- A Python exception: the three that `ShmError` becomes, and those that PyO3's own conversions
-- raise before the crate's code sees a value.
pub data PyErr : Type 0 where
  os_error value_error permission_error : Message → PyErr
  type_error index_error overflow_error unicode_error : PyErr

-- `impl From<ShmError> for PyErr`
unfoldable pub to_py_err : ShmError → PyErr
to_py_err (os msg) = os_error msg
to_py_err (invalid_arg msg) = value_error msg
to_py_err (permission msg) = permission_error msg

-- `PyResult<A>`
pub data PyResult {ℓ} (A : Type ℓ) : Type ℓ where
  ok : A → PyResult A
  err : PyErr → PyResult A

infixl 5 ◌>>=◌ ◌>>◌
abbrev pub ◌>>=◌ {ℓ κ} : {A : Type ℓ} {B : Type κ} → PyResult A → (A → PyResult B) → PyResult B
ok a >>= f = f a
err e >>= f = err e

abbrev pub ◌>>◌ {ℓ} : {B : Type ℓ} → PyResult (Unit {0}) → PyResult B → PyResult B
m >> k = m >>= λ _. k

-- `return Err(ShmError::InvalidArg(msg).into())`
unfoldable pub invalid {ℓ} : {A : Type ℓ} → Message → PyResult A
unfolding to_py_err
invalid msg = err (to_py_err (invalid_arg msg))

-- `map_err(PyErr::from)`
unfoldable pub map_err {ℓ} : {A : Type ℓ} → ShmError ⊎ A → PyResult A
unfolding to_py_err
map_err (inl e) = err (to_py_err e)
map_err (inr a) = ok a

-- Inversion of a chain that succeeded.
pub bind_ok {ℓ κ} :
    {A : Type ℓ} {B : Type κ} (m : PyResult A) (f : A → PyResult B) {b : B}
    → (m >>= f) ≡ ok b
    → (a : A) × (m ≡ ok a) × (f a ≡ ok b)
bind_ok (ok a) f h = (a, refl, h)
bind_ok (err e) f h = absurd (cc)
