-- ===== src/Db/Tables.antt =====
-- The tables of `migrations/0001_baseline.sql`, a row as a record. The sequence of
-- `migrations/0002_proctran_counter_default.sql` is the field `sequence` of a session.
use cbsa_rust.Prelude.{ℕ, Bool, Option, List}
use cbsa_rust.Prelude.Int.{ℤ}
use cbsa_rust.Text.{Text}
use cbsa_rust.Crates.{Crates}

module _ ⦃c : Crates⦄ where
  pub record CustomerRow : Type 0 where
    pub sortcode : Text
    pub customer_number : ℤ
    pub name : Text
    pub address : Text
    pub date_of_birth : c.Date
    pub credit_score : ℤ
    pub cs_review_date : Option c.Date

  pub record AccountRow : Type 0 where
    pub sortcode : Text
    pub customer_number : ℤ
    pub account_number : ℤ
    pub account_type : Text
    pub interest_rate : c.Decimal
    pub opened : c.Date
    pub overdraft_limit : c.Decimal
    pub last_stmt_date : Option c.Date
    pub next_stmt_date : Option c.Date
    pub available_balance : c.Decimal
    pub actual_balance : c.Decimal

  pub record ProctranRow : Type 0 where
    pub sortcode : Text
    pub counter : ℕ
    pub logical_delete : Bool
    pub tran_date : c.Date
    pub tran_time : c.Time
    pub tran_ref : ℤ
    pub tran_type : Text
    pub description : Text
    pub amount : c.Decimal

  pub record ControlRow : Type 0 where
    pub id : Text
    pub customer_count : ℤ
    pub customer_last : ℤ
    pub account_count : ℤ
    pub account_last : ℤ

  pub record Tables : Type 0 where
    pub customer : List CustomerRow
    pub account : List AccountRow
    pub proctran : List ProctranRow
    pub control : List ControlRow
