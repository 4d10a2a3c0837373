-- ===== src/Service/Updacc/Keeps.antt =====
-- The theorem about the whole service call, whatever the request is and however it ends.
use cbsa_rust.Prelude.{Result}
use cbsa_rust.Text.{Text}
use cbsa_rust.Crates.{Crates, IsLawful}
use cbsa_rust.Error.{CbsaError}
use cbsa_rust.Db.Tables.{Tables}
use cbsa_rust.Db.Session.{Session}
use cbsa_rust.Repository.Updacc.{UpdateAccountCommand}
use cbsa_rust.Repository.Updacc.Effect.{Reterms}
use cbsa_rust.Service.Calls.{Reports}
use cbsa_rust.Service.Updacc.{UpdaccResult}

module _ ⦃c : Crates⦄ (laws : IsLawful) where
  abbrev pub Keeps :
      UpdateAccountCommand → Tables → Result CbsaError UpdaccResult × Session → Type 0
  Keeps command before = Reports (λ r. r.account) before (Reterms laws command before)
