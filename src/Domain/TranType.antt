-- ===== src/Domain/TranType.antt =====
-- `ProcTranType` of `domain.rs`.
use text.Mathlib.Text.{◌==◌ as str_eq}
use cbsa_rust.Prelude.{
  String, List, [], ◌∷◌, Option, none, some, ◌≡◌, refl, sym, ap, ◌∙◌, if◌then◌else◌, arith,
}

pub data ProcTranType : Type 0 where
  cheque_acct_opened cheque_paid_in cheque_paid_out credit debit payment_credit : ProcTranType
  payment_debit branch_create customer_create account_create account_update : ProcTranType
  customer_update customer_delete account_delete transfer : ProcTranType

unfoldable pub as_str : ProcTranType → String
as_str cheque_acct_opened = "CHA"
as_str cheque_paid_in = "CHI"
as_str cheque_paid_out = "CHO"
as_str credit = "CRE"
as_str debit = "DEB"
as_str payment_credit = "PCR"
as_str payment_debit = "PDR"
as_str branch_create = "ICL"
as_str customer_create = "OCC"
as_str account_create = "OCA"
as_str account_update = "OUA"
as_str customer_update = "OUC"
as_str customer_delete = "ODC"
as_str account_delete = "ODA"
as_str transfer = "TFR"

-- The types in the order of the source.
abbrev all_types : List ProcTranType
all_types =
    cheque_acct_opened ∷ cheque_paid_in ∷ cheque_paid_out ∷ credit ∷ debit ∷ payment_credit
    ∷ payment_debit ∷ branch_create ∷ customer_create ∷ account_create ∷ account_update
    ∷ customer_update ∷ customer_delete ∷ account_delete ∷ transfer ∷ []

-- The first type of a list that is written this way.
unfoldable decode : List ProcTranType → String → Option ProcTranType
decode [] code = none
decode (t ∷ ts) code = if str_eq (as_str t) code then some t else decode ts code

decode-as_str : (t : ProcTranType) → decode all_types (as_str t) ≡ some t
unfolding decode as_str
decode-as_str cheque_acct_opened = refl
decode-as_str cheque_paid_in = refl
decode-as_str cheque_paid_out = refl
decode-as_str credit = refl
decode-as_str debit = refl
decode-as_str payment_credit = refl
decode-as_str payment_debit = refl
decode-as_str branch_create = refl
decode-as_str customer_create = refl
decode-as_str account_create = refl
decode-as_str account_update = refl
decode-as_str customer_update = refl
decode-as_str customer_delete = refl
decode-as_str account_delete = refl
decode-as_str transfer = refl

-- Two transaction types that are written with the same code are the same type.
pub as_str_injective : (t u : ProcTranType) → as_str t ≡ as_str u → t ≡ u
as_str_injective t u e =
    some_injective (sym (decode-as_str t) ∙ ap (decode all_types) e ∙ decode-as_str u)
  where
    some_injective : {A : Type 0} {x y : A} → some x ≡ some y → x ≡ y
    some_injective p = ground arith
