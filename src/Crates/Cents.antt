-- ===== src/Crates/Cents.antt =====
-- An instance of the crates that meets the laws: a `Decimal` is a number of cents with the scale it
-- was written at, dates are numbers of days (in years of 365 days), and an error is its SQLSTATE with its text.
use cbsa_rust.Prelude.{
  ℕ, ◌≤◌, ◌+◌, ◌*◌, ◌^◌, ◌/◌, ◌%◌, ◌&&◌, ◌++◌, refl, Option, some, none, String, arith,
  if◌then◌else◌, leb, ltb, ◌==◌, length,
}
use cbsa_rust.Prelude.Int.{ℤ, pos, ◌+ℤ◌, ◌-ℤ◌, ltb_ℤ, neg_ℤ, pos_part, neg_part, sub_ℕ}
use cbsa_rust.Text.{Text, codes}
use cbsa_rust.Text.Decimal.{format_int, show_int}
use cbsa_rust.Text.Laws.{read_from}
use cbsa_rust.Crates.Defs.{Crates, IsLawful}

pub record Cents : Type 0 where
  pub amount : ℤ
  pub digits : ℕ

abbrev pub cents_at_two : ℤ → Cents
cents_at_two a = record { amount = a; digits = 2 }

-- m / 10 ^ s in cents, cut off after two places.
abbrev to_cents : ℤ → ℕ → ℤ
to_cents m s = if s == 2 then m else sub_ℕ (pos_part m * 100 / 10 ^ s) (neg_part m * 100 / 10 ^ s)

-- Days since the epoch, and milliseconds since then.
pub record Instant : Type 0 where
  pub day : ℕ
  pub millis : ℤ
  pub clock : ℕ

pub record DbFault : Type 0 where
  pub code : Option String
  pub message : Text

abbrev pub duplicate_key : DbFault
duplicate_key = record { code = some "23505"; message = codes "constraint violated" }

abbrev pub contention : DbFault
contention = record { code = some "40001"; message = codes "restart transaction" }

instance abbrev pub cents_crates : Crates
cents_crates = record {
  Decimal = Cents;
  decimal_new = λ m s. record { amount = to_cents m s; digits = s };
  decimal_zero = record { amount = pos 0; digits = 0 };
  add = λ a b. cents_at_two (a.amount +ℤ b.amount);
  sub = λ a b. cents_at_two (a.amount -ℤ b.amount);
  neg = λ a. cents_at_two (neg_ℤ a.amount);
  lt = λ a b. ltb_ℤ a.amount b.amount;
  scale = λ a. a.digits;
  round_dp = λ dp a. record a { digits = if leb a.digits dp then a.digits else dp };
  mul = λ a b. record {
    amount = to_cents (pos (pos_part a.amount * pos_part b.amount)) 4;
    digits = a.digits + b.digits;
  };
  trunc = λ a. record {
    amount = sub_ℕ (pos_part a.amount / 100 * 100) (neg_part a.amount / 100 * 100);
    digits = 0;
  };
  fract_is_zero = λ a. pos_part a.amount % 100 == 0 && neg_part a.amount % 100 == 0;
  to_i128 = λ a. some (sub_ℕ (pos_part a.amount / 100) (neg_part a.amount / 100));
  to_string = λ a. show_int a.amount;
  Date = ℕ;
  Time = ℕ;
  DateTime = Instant;
  format_ddmmyyyy = λ d. format_int 8 (pos d);
  format_dd_mm_yyyy = λ d. format_int 10 (pos d);
  parse_ddmmyyyy = λ t. if length t == 8 then some (read_from 0 t) else none;
  year = λ d. pos (1970 + d / 365);
  month = λ d. d % 365 / 31 + 1;
  day = λ d. d % 365 % 31 + 1;
  date_lt = λ a b. ltb a b;
  add_days = λ d n. some (d + n);
  timestamp_millis = λ i. i.millis;
  date_naive = λ i. i.day;
  wall_clock = λ i. i.clock;
  SqlxError = DbFault;
  sqlstate = λ e. e.code;
  display = λ e. e.message;
  constraint_violation = duplicate_key;
  invalid_field = λ field message. codes field ++ (codes ": " ++ message);
}

pub round_dp-le : (n : ℕ) → (if leb n 2 then n else 2) ≤ 2
round_dp-le n = ground arith

abbrev pub Cents-IsLawful : IsLawful ⦃c = cents_crates⦄
Cents-IsLawful = record {
  cents = λ a. a.amount;
  scale-decimal_new = λ m s. refl;
  cents-decimal_new = λ m. refl;
  scale-decimal_zero = refl;
  cents-decimal_zero = refl;
  lt-eq-ltb = λ a b p q. refl;
  scale-round_dp = λ a. round_dp-le a.digits;
  cents-round_dp = λ a p. refl;
  add_lem = λ a b p q. (omega arith, refl);
  sub_lem = λ a b p q. (omega arith, refl);
  neg_lem = λ a p. (omega arith, refl);
}
