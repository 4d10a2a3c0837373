-- ===== src/Error.antt =====
-- The error model (`error.rs`): `CbsaError`, the RFC 7807 body and the one place that turns an
-- error into a response. The JSON bytes of the body are made by `serde_json`, so a response holds
-- the `ProblemDetail` itself; logging is left out.
pub mod Laws
use cbsa_rust.Prelude.{ℕ, String, Option, some, none, ◌++◌}
use cbsa_rust.Text.{Text, codes}
use cbsa_rust.Crates.{Crates}

abbrev pub proctran_abend_code : String
proctran_abend_code = "HWPT"

abbrev pub retry_exhausted_abend_code : String
retry_exhausted_abend_code = "XRTY"

abbrev pub unexpected_abend_code : String
unexpected_abend_code = "UNEX"

pub record ProblemDetail : Type 0 where
  pub problem_type : Text
  pub title : Text
  pub status : ℕ
  pub detail : Text
  pub abend_code : Option String
  pub fail_code : Option String

-- `ProblemDetail::new`.
unfoldable pub new : ℕ → Text → Text → ProblemDetail
new status title detail = record {
  problem_type = codes "about:blank";
  title = title;
  status = status;
  detail = detail;
  abend_code = none;
  fail_code = none;
}

unfoldable pub with_abend_code : ProblemDetail → String → ProblemDetail
with_abend_code pd code = record pd { abend_code = some code }

unfoldable pub with_fail_code : ProblemDetail → String → ProblemDetail
with_fail_code pd code = record pd { fail_code = some code }

-- A response: the status line, the `Content-Type` header and the body.
pub record Response (B : Type 0) : Type 0 where
  pub status : ℕ
  pub content_type : String
  pub body : B

unfoldable pub problem_response : ℕ → ProblemDetail → Response ProblemDetail
problem_response status pd = record {
  status = status;
  content_type = "application/problem+json";
  body = pd;
}

abbrev pub generic_failure_detail : Text
generic_failure_detail = codes "Operation failed. Please contact support if the problem persists."

module _ ⦃c : Crates⦄ where
  pub data CbsaError : Type 0 where
    validation : Text → CbsaError
    abend : String → Text → CbsaError
    database : c.SqlxError → CbsaError

  -- The `Display` that `thiserror` derives.
  unfoldable pub show_error : CbsaError → Text
  show_error (validation message) = codes "validation: " ++ message
  show_error (abend code message) = codes "abend " ++ (codes code ++ (codes ": " ++ message))
  show_error (database err) = c.display err

  -- The `match` of `into_response`: each branch gives the status line and the body on their own.
  unfoldable pub status_and_problem : CbsaError → ℕ × ProblemDetail
  status_and_problem (validation message) = (400, new 400 (codes "Validation failed") message)
  status_and_problem (abend code _) =
      (500, with_abend_code (new 500 (codes "Abend") generic_failure_detail) code)
  status_and_problem (database _) = (
    500,
    with_abend_code (new 500 (codes "Unexpected error") generic_failure_detail)
        unexpected_abend_code,
  )

  -- `IntoResponse for CbsaError`.
  unfoldable pub into_response : CbsaError → Response ProblemDetail
  into_response err = let (status, pd) = status_and_problem err in problem_response status pd
