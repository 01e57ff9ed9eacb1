-- ===== src/Db/Tables.antt =====
-- The state of the database that files and jobs share: their tables and that of the users, each of
-- the type that the engine keeps it in.
use file_processing_platform.Common.{Option, none, Bool, true, false, List, []}

pub record Tables (U F J : Type 0) : Type 0 where
  pub users : U
  pub files : F
  pub jobs : J

abbrev pub is_none {ℓ} : {A : Type ℓ} → Option A → Bool
is_none none = true
is_none _ = false

abbrev pub is_empty {ℓ} : {A : Type ℓ} → List A → Bool
is_empty [] = true
is_empty _ = false
