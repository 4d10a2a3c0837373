-- ===== src/Web/Http.antt =====
-- What the handlers have in common: replies, dates, and the number in a path. Each module of `web/`
-- has these in its own words; the lines named are those of `web/inqacc.rs`.
use cbsa_rust.Prelude.{ℕ, String, Option, none, some, Result, ok, err, if◌then◌else◌}
use cbsa_rust.Prelude.Int.{ℤ, pos, contains}
use cbsa_rust.Text.{Text}
use cbsa_rust.Text.Parse.{parse_i64}
use cbsa_rust.Crates.{Crates}
use cbsa_rust.Error.{
  CbsaError, validation, ProblemDetail, Response, new, with_fail_code, problem_response,
  into_response,
}

-- What a client gets: a JSON body, a problem, or no answer, when the handler panics in an `expect`.
pub data HttpReply (B : Type 0) : Type 0 where
  sent : Response B → HttpReply B
  refused : Response ProblemDetail → HttpReply B
  panicked : HttpReply B

-- `Json(body).into_response()`
abbrev pub json : {B : Type 0} → B → Response B
json body = record { status = 200; content_type = "application/json"; body = body }

-- The end of every `failure_response`.
abbrev pub problem : ℕ → Text → Text → String → Response ProblemDetail
problem status title detail fail_code =
    problem_response status (with_fail_code (new status title detail) fail_code)

abbrev pub message_or : Text → Option Text → Text
message_or missing none = missing
message_or missing (some message) = message

module _ ⦃c : Crates⦄ where
  -- axum answers an `Err` of a handler with `into_response`.
  abbrev pub to_reply : {B : Type 0} → Result CbsaError (HttpReply B) → HttpReply B
  to_reply (ok reply) = reply
  to_reply (err e) = HttpReply.refused (into_response e)

  -- `parse`, and the range that `validate` checks.
  unfoldable pub parse_number : String → ℤ → ℤ → Text → Text → Text → Result CbsaError ℤ
  parse_number field lo hi malformed outside t = elim (parse_i64 t) [
    | none ↦ err (validation malformed)
    | some n ↦ if contains lo hi n then ok n else err (validation (c.invalid_field field outside))
  ]

  pub record DateDto : Type 0 where
    pub day : ℕ
    pub month : ℕ
    pub year : ℤ

  abbrev pub from_date : c.Date → DateDto
  from_date date = record { day = c.day date; month = c.month date; year = c.year date }

  abbrev pub zero_date : DateDto
  zero_date = record { day = 0; month = 0; year = pos 0 }

  -- `map(from_date).unwrap_or_else(zero)`
  abbrev pub date_or_zero : Option c.Date → DateDto
  date_or_zero none = zero_date
  date_or_zero (some date) = from_date date
