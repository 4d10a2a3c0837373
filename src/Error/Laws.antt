-- ===== src/Error/Laws.antt =====
-- What a client sees of an error of `error.rs`.
use cbsa_rust.Prelude.{◌≡◌, ◌≢◌, none}
use cbsa_rust.Text.{Text, codes}
use cbsa_rust.Crates.{Crates}
use cbsa_rust.Error.{CbsaError, into_response}

-- What a client is told of every internal failure.
abbrev generic_detail : Text
generic_detail = codes "Operation failed. Please contact support if the problem persists."

module _ ⦃c : Crates⦄ where
  -- An internal failure: the generic detail, and an abend code to quote to support.
  pub record IsOpaque (e : CbsaError) : Type 0 where
    pub status : (into_response e).status ≡ 500
    pub detail : (into_response e).body.detail ≡ generic_detail
    pub abend_code : (into_response e).body.abend_code ≢ none

  -- A refused request: the message of the check, and no abend code.
  pub record IsExplained (e : CbsaError) : Type 0 where
    pub message : Text
    pub is_validation : e ≡ CbsaError.validation message
    pub status : (into_response e).status ≡ 400
    pub detail : (into_response e).body.detail ≡ message
    pub abend_code : (into_response e).body.abend_code ≡ none
