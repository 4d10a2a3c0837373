-- ===== src/Tests/Inquiry.antt =====
-- Inquiries on concrete tables.
use cbsa_rust.Prelude.{◌≡◌, arith, ◌≤◌, ◌<◌, ◌^◌, ℕ}
use cbsa_rust.Prelude.Int.{pos}
use cbsa_rust.Crates.Cents.{cents_crates}
use cbsa_rust.Service.Inqacc
use cbsa_rust.Service.Inqacc.Reports.{IsAccountReport, inquire-IsAccountReport}
use cbsa_rust.Service.Inqacccu
use cbsa_rust.Service.Inqacccu.Reports.{IsListingReport, inquire-IsListingReport}
use cbsa_rust.Service.Inqcust
use cbsa_rust.Service.Inqcust.{system_generator, system_next, next_state}
use cbsa_rust.Service.Inqcust.Reports.{IsCustomerReport, inquire-IsCustomerReport}
use cbsa_rust.Service.Inqcust.Random.{system_next_lem}
use cbsa_rust.Text.{codes}
use cbsa_rust.Web.Inqacc as Web
use cbsa_rust.Web.Inqacc.Responds.{Responds, inquire-Responds}
use cbsa_rust.Tests.Data.{branch_code}
use cbsa_rust.Tests.Opening.{opening_session}

-- 99999999: the last account of the branch.
inquire-IsAccountReport_example :
    IsAccountReport opening_session.tables branch_code
      (pos 99_999_999)
      (Inqacc.inquire branch_code (record { account_number = pos 99_999_999 }) opening_session)
inquire-IsAccountReport_example =
    inquire-IsAccountReport branch_code (record { account_number = pos 99_999_999 }) opening_session

inquire-IsListingReport_example :
    IsListingReport opening_session.tables branch_code
      (pos 42)
      (Inqacccu.inquire branch_code (record { customer_number = pos 42 }) opening_session)
inquire-IsListingReport_example =
    inquire-IsListingReport branch_code (record { customer_number = pos 42 }) opening_session

inquire-IsCustomerReport_example : IsCustomerReport opening_session.tables branch_code (pos 42) (
    Inqcust.inquire system_generator branch_code
      (record { customer_number = pos 42 })
      7
      opening_session)
inquire-IsCustomerReport_example =
    inquire-IsCustomerReport system_generator branch_code (record { customer_number = pos 42 }) 7
      opening_session

system_next_lem_example :
    (k : ℕ) × (system_next (pos 42) 7 ≡ (pos k, next_state 7))
    × (1 ≤ k)
    × (k ≤ 42)
    × (next_state 7 < 2 ^ 64)
system_next_lem_example = system_next_lem 42 7 (omega arith) (omega arith)

inquire-Responds_example :
    Responds opening_session.tables branch_code
      (codes "2")
      (Web.inquire branch_code (codes "2") opening_session)
inquire-Responds_example = inquire-Responds branch_code (codes "2") opening_session
