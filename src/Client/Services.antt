-- ===== src/Client/Services.antt =====
-- What the file system client uses: the extent server behind `ec` and the lock service behind `lc`,
-- as operations on one state; and, in `finum`, what the variable of yfs_client::n2i holds before it is
-- assigned, by the text that is left to read.
use file_system_yfs.Base.{ℕ, Bool, true, false}
use file_system_yfs.Base.Text.{Text}
use file_system_yfs.Inodes.{Attr}
use file_system_yfs.Extent.{Status}

pub record Services (S : Type 0) : Type 0 where
  pub finum : Text → ℕ
  pub create : S → ℕ → S × Status × ℕ
  pub get : S → ℕ → S × Status × Text
  pub put : S → ℕ → Text → S × Status
  pub getattr : S → ℕ → S × Status × Attr
  pub remove : S → ℕ → S × Status
  pub acquire : S → ℕ → S
  pub release : S → ℕ → S

abbrev pub is_ok : Status → Bool
is_ok Status.ok = true
is_ok Status.rpcerr = false
is_ok Status.noent = false
is_ok Status.ioerr = false

-- yfs_client::xxstatus
pub data Result : Type 0 where
  ok rpcerr noent ioerr exist : Result
