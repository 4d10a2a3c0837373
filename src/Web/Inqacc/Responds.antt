-- ===== src/Web/Inqacc/Responds.antt =====
-- What a client gets from the inquiry of an account, from the path to the rows.
use cbsa_rust.Prelude.{◌≡◌, refl, inl, inr, ◌⊎◌, Option, none, some, Result, ok, err, ◌>>=◌}
use cbsa_rust.Prelude.Int.{ℤ, pos}
use cbsa_rust.Text.{Text}
use cbsa_rust.Crates.{Crates}
use cbsa_rust.Domain.Account.{round_money}
use cbsa_rust.Error.{CbsaError, Response, ProblemDetail, into_response, problem_response}
use cbsa_rust.Db.Tables.{AccountRow, Tables}
use cbsa_rust.Db.Session.{Session}
use cbsa_rust.Repository.Account.{stored}
use cbsa_rust.Service.Inqacc as Service
use cbsa_rust.Service.Inqacc.{
  InqaccRequest, InqaccResult, inquiry_success, is_not_found_failure, plain_fields,
}
use cbsa_rust.Service.Inqacc.Finds.{Finds, wanted, reported_of, inquire-Finds}
use cbsa_rust.Service.Inqacc.Reports.{IsSelected, wanted-IsSelected}
use cbsa_rust.Web.Http.{HttpReply, json, DateDto, date_or_zero, to_reply}
use cbsa_rust.Web.Inqacc.Parsed.{IsInRange, IsOutside, IsParsed, try_from-IsParsed}
use cbsa_rust.Web.Inqacc.{
  InqaccResponseDto, try_from, from_account, failure_response, respond, inquire,
}

module _ ⦃c : Crates⦄ where
  -- A date of the response: its three numbers, all zero where there is no date.
  abbrev pub shown_date : Option c.Date → DateDto
  shown_date none = record { day = 0; month = 0; year = pos 0 }
  shown_date (some date) = record { day = c.day date; month = c.month date; year = c.year date }

module _ ⦃c : Crates⦄ (t : Tables) (sortcode path : Text) where
  -- The path names a row, and the body describes it.
  pub record Describes (r : Response InqaccResponseDto) : Type 0 where
    pub number : ℤ
    pub in_range : IsInRange path number
    pub row : AccountRow
    pub selected : IsSelected sortcode number t.account (some row)
    pub status : r.status ≡ 200
    pub content_type : r.content_type ≡ "application/json"
    pub body : r.body ≡ record {
      eye = "ACCT";
      customer_number = row.customer_number;
      sortcode = row.sortcode;
      account_number = row.account_number;
      account_type = row.account_type;
      interest_rate = c.to_string (c.round_dp 2 row.interest_rate);
      opened = shown_date (some row.opened);
      overdraft = c.to_string (c.round_dp 2 row.overdraft_limit);
      last_statement_date = shown_date row.last_stmt_date;
      next_statement_date = shown_date row.next_stmt_date;
      available_balance = c.to_string (c.round_dp 2 row.available_balance);
      actual_balance = c.to_string (c.round_dp 2 row.actual_balance);
      inquiry_success = "Y";
      pcb1_pointer = "";
    }

  -- The path is a number in range that names no row.
  pub record Misses (r : Response ProblemDetail) : Type 0 where
    pub number : ℤ
    pub in_range : IsInRange path number
    pub missing : IsSelected sortcode number t.account none
    pub status : r.status ≡ 404

  -- The service ended in an error.
  pub record Fails (r : Response ProblemDetail) : Type 0 where
    pub number : ℤ
    pub in_range : IsInRange path number
    pub error : CbsaError
    pub response : r ≡ into_response error

  abbrev pub Responds : HttpReply InqaccResponseDto × Session → Type 0
  Responds (HttpReply.sent r, s) = (s.tables ≡ t) × Describes r
  Responds (HttpReply.refused r, s) =
      (s.tables ≡ t) × ((IsOutside path × (r.status ≡ 400)) ⊎ (Misses r ⊎ Fails r))
  Responds (HttpReply.panicked, s) = ⊥

  with_dates :
      (last next : Option c.Date)
      → (date_or_zero last ≡ shown_date last) × (date_or_zero next ≡ shown_date next)
  with_dates last next = (one last, one next)
    where
      one : (date : Option c.Date) → date_or_zero date ≡ shown_date date
      one none = refl
      one (some date) = refl

  described :
      (number : ℤ) (row : AccountRow) (s : Session)
      → s.tables ≡ t
      → IsInRange path number
      → IsSelected sortcode number t.account (some row)
      → Responds (HttpReply.sent (json (from_account (stored (plain_fields row)))), s)
  unfolding from_account round_money
  described number row s same range chosen = (
    same,
    record {
      number = number;
      in_range = range;
      row = row;
      selected = chosen;
      status = refl;
      content_type = refl;
      body = let (p, q) = with_dates row.last_stmt_date row.next_stmt_date in rw (p, q) refl;
    },
  )

  respond-Responds :
      (request : InqaccRequest) (x : Result CbsaError InqaccResult × Session)
      → IsInRange path request.account_number
      → Finds t (wanted sortcode request.account_number t) x
      → Responds (to_reply (x.0 >>= λ a. ok (respond a)), x.1)
  unfolding respond failure_response inquiry_success is_not_found_failure problem_response
  respond-Responds request (err e, s) range same = (
    same,
    inr (
        inr (record {
          number = request.account_number;
          in_range = range;
          error = e;
          response = refl;
        })),
  )
  respond-Responds request (ok r, s) range (same, is, coded) =
      go (wanted sortcode request.account_number t) is coded
        (wanted-IsSelected sortcode request.account_number t)
    where
      go :
          (o : Option AccountRow)
          → r.account ≡ reported_of o
          → (r.account ≡ none → r.fail_code ≡ "1")
          → IsSelected sortcode request.account_number t.account o
          → Responds (respond r, s)
      go none a code chosen =
          rw (a, code a)
            (
              same,
              inr (
                  inl (record {
                    number = request.account_number;
                    in_range = range;
                    missing = chosen;
                    status = refl;
                  })),
            )
      go (some row) a code chosen = rw a (described request.account_number row s same range chosen)

module _ ⦃c : Crates⦄ where
  -- The handler of the inquiry of an account changes no table and never panics. It sends an account only
  -- when the path parses to a number from 0 to 99999999 and the branch has the row with that number, or
  -- for 99999999 any row, and then the one with the greatest number: with status 200, the body gives the
  -- columns of that row, its money rounded to two places and written out. It answers 400 when the path
  -- is no number or out of that range, 404 only when it is in the range and there is no such row, and
  -- everything else is the response to an error, for a path in the range.
  pub inquire-Responds :
      (sortcode path : Text) (s : Session)
      → Responds s.tables sortcode path (inquire sortcode path s)
  unfolding inquire
  inquire-Responds sortcode path s = go (try_from path) (try_from-IsParsed path)
    where
      go :
          (x : Result CbsaError InqaccRequest)
          → IsParsed path x
          → Responds s.tables sortcode path
              (elim x as (λ _. HttpReply InqaccResponseDto × Session) [
                | err e ↦ (to_reply (err e), s)
                | ok request ↦
                    let (r, s') = Service.inquire sortcode request s in
                    (to_reply (r >>= λ a. ok (respond a)), s')
              ])
      go (err e) parsed = (refl, inl parsed)
      go (ok request) parsed =
          respond-Responds s.tables sortcode path request (Service.inquire sortcode request s)
            parsed (inquire-Finds sortcode request s)
