-- ===== src/Lib.antt =====
-- The verification library of cbsa-rust: the port to Rust of a bank's CICS programs. A request goes
-- from the web layer to a service, which validates it, and from there to a repository function, which
-- runs one database transaction and tries it again when CockroachDB reports a serialization failure.
--
-- The parts, with the code that each is about:
--   Prelude, Text            names, Boolean tests, integers, results, searches in lists, and texts
--                            (lists of code points)
--   Config                   src/config.rs: the settings, `validate`, `is_six_ascii_digits`
--   Domain                   src/domain.rs: `CustomerProfile`, `CustomerDetails`, `AccountDetails`,
--                            `ProcTranType`; a value of a type is a record, `new` its constructor
--   Error                    src/error.rs: `CbsaError`, `ProblemDetail`, `into_response`
--   Db                       src/db.rs: `is_serialization_failure`, `with_retry`; the tables and the
--                            limits of migrations/; the SQL statements of the repository modules
--   Repository.Frame         begin, run, commit or drop, retry: the frame of `transfer_funds`,
--                            `post_transaction` and the other repository functions
--   Repository.Read          the reads that turn rows into domain values, and the match on their result
--   Repository.X             src/repository/x.rs, for every other module of src/repository/; creacc.rs
--                            and crecust.rs with the hook that does nothing
--   Service.X                src/service/x.rs, for every module of src/service/; Service.Checks and
--                            Service.Titles have the validation that they repeat
--   Web                      src/web/inqacc.rs, inqacccu.rs and inqcust.rs: the handlers of the inquiries
--   Crates                   rust_decimal, chrono, sqlx and validator
--   Tests                    concrete tables, runs on them, and applications of the theorems
--
-- The crates are not read but taken as parameters: the record `Crates` has their types and
-- operations, and `IsLawful` states what their documentation says of amounts of at most two
-- fractional digits, counted in cents. `Crates.Cents` is an instance that meets the laws.
--
-- State. A `Session` is a connection: the tables as lists of rows, the sequence of audit row numbers,
-- and a schedule that says which of the following statements fails and with what error, so that a
-- theorem about every session covers every pattern of failures. A failed statement changes nothing. A
-- transaction that is not committed is dropped: the tables are those of `begin` again, but numbers
-- drawn from the sequence stay drawn. CockroachDB isolates transactions serializably, so a session
-- sees the tables as if it ran alone; what another transaction writes between two attempts is not
-- modelled, and `FOR UPDATE` has no further effect. A row that would break NUMERIC(12,2) or
-- VARCHAR(40) makes its statement fail. A commit takes effect or fails; it does not do both.
--
-- `pool.acquire`, `begin` and `commit` are statements like the others; `db::with_retry` around a read
-- runs the read again. Where a service reads without a transaction, each read is one statement.
-- A call that panics in an `expect` is a value of its own: `none`, or the ending `panicked`.
--
-- Numbers. i64 and i32 values are integers: the code compares and prints them, and the only
-- sums are the counters of account and customer numbers, which the database keeps within BIGINT. The
-- u32 sums of credit scores keep their wrap-around at 2 ^ 32, the cast to u16 its own at 2 ^ 16.
-- Money stands in the columns as NUMERIC(12,2); the schema's limits are `IsWellFormed`. The retry loop
-- is recursion on the attempts left, four after the first one, as in the source; the
-- inquiry of a random customer is recursion on its 1000 rounds, the replies of the agencies on the five
-- tasks. The generators of src/service/crdtagy.rs, inqcust.rs and crecust.rs keep their wrap-around at
-- 2 ^ 64; a seed, the clock and the offset of a review date are arguments, and the wait for the delay of
-- an agency is left out. The tasks of the agencies run side by side with a deadline: what the loop sees of
-- them is the list of their replies in the order of arrival, which a theorem takes as any list.
--
-- The checks of the table account (primary key, foreign key to customer, sizes of the columns) are in
-- Db.Sql.Opening; an UPDATE of balances is checked for NUMERIC(12,2) in Db.Sql.
--
-- Prelude.Search.Found and Db.Sql.Customers.Found say what a SELECT is to return in terms of the rows of
-- the table, apart from the definitions that model the SELECTs; Service.Inqacc.Reports,
-- Service.Inqcust.Reports, Service.Inqacccu.Reports and Web.Inqacc.Responds describe the inquiries with
-- these words and with the columns of the rows written out.
--
-- Not modelled: the handlers of src/web/ that take a JSON body, the routes (axum), the JSON form of a
-- request or response (serde), logging, connecting and migrating (src/db.rs), reading the configuration
-- file (figment) and src/main.rs; of src/service/crecust.rs the fixed clock and offset that its
-- integration tests pass in.
pub mod Prelude
pub mod Text
pub mod Config
pub mod Crates
pub mod Domain
pub mod Error
pub mod Db
pub mod Repository
pub mod Service
pub mod Tests
pub mod Web
