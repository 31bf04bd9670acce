-- ===== src/Marshal.antt =====
-- marshal.go: the choice of how a value is marshalled. A value of type any has some type V here, and
-- `Dynamic` says what its dynamic type implements; the methods are the callers', json.Marshal is a
-- library's. A result is the bytes beside the error, of which Go code may return both.
use lymbo.Base.{ℕ, List, Option, none, some, Bool, if◌then◌else◌}
use lymbo.Errors.{Error, Result, ok, err}

abbrev pub Outcome : Type 0
Outcome = Option (List ℕ) × Option Error

pub record Dynamic (V : Type 0) : Type 0 where
  pub is_payload_marshaler : V → Bool
  pub is_error_marshaler : V → Bool
  pub is_json_marshaler : V → Bool
  pub marshal_payload : V → Outcome
  pub marshal_error : V → Outcome
  pub marshal_json : V → Outcome
  pub json_marshal : V → Outcome  -- json.Marshal

-- A PayloadMarshaler or an ErrorMarshaler: the value itself, the function type marshaller over a
-- method, or a marshalFunc.
pub data Marshaller (V : Type 0) : Type 0 where
  itself : V → Marshaller V
  method : V → Marshaller V
  marshal_func : V → Marshaller V

-- What a caller makes of an outcome that tests the error first.
abbrev pub checked : Outcome → Result (Option (List ℕ))
checked (bytes, none) = ok bytes
checked (bytes, some e) = err e

module _ {V : Type 0} (dy : Dynamic V) where
  unfoldable pub to_default_payload_marshaller : V → Marshaller V
  to_default_payload_marshaller v =
      if dy.is_payload_marshaler v
      then itself v
      else if dy.is_json_marshaler v
      then method v
      else marshal_func v

  unfoldable pub to_default_error_marshaller : V → Marshaller V
  to_default_error_marshaller v =
      if dy.is_error_marshaler v
      then itself v
      else if dy.is_json_marshaler v
      then method v
      else marshal_func v

  -- MarshalPayload and MarshalError of these.
  unfoldable pub run_payload : Marshaller V → Outcome
  run_payload (itself v) = dy.marshal_payload v
  run_payload (method v) = dy.marshal_json v
  run_payload (marshal_func v) = dy.json_marshal v

  unfoldable pub run_error : Marshaller V → Outcome
  run_error (itself v) = dy.marshal_error v
  run_error (method v) = dy.marshal_json v
  run_error (marshal_func v) = dy.json_marshal v
