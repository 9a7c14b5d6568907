-- ===== src/FullOtp/Error.antt =====
-- crates/otp-fullotp/src/error.rs: the errors behind the wire format.
use jbuu.Base.{ℕ}
use jbuu.FullOtp.{WireError}

pub data ControlError : Type 0 where
  control_too_short control_too_long unknown_code control_length : ControlError

pub data OtpError : Type 0 where
  wire : WireError → OtpError
  wrong_direction wrong_bundle replay gap wrong_offset wrong_tag closed does_not_fit : OtpError

pub data SendError : Type 0 where
  send_closed empty_plaintext sequence_exhausted internal : SendError

-- The reason of a failed reservation is a text for the audit; `coordinator_must_be_server` is the
-- one that the pump itself gives.
pub data PadSourceError : Type 0 where
  pointer_mismatch : ℕ → ℕ → PadSourceError
  reserve coordinator_must_be_server : PadSourceError

pub data PumpError : Type 0 where
  data_error : OtpError → PumpError
  source_error : PadSourceError → PumpError

-- How a call of the pump stops early: with an error, or by the panic of `expect`.
pub data Stop (E : Type 0) : Type 0 where
  fails : E → Stop E
  panics : Stop E
