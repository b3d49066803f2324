-- ===== src/Models/Status.antt =====
-- The status columns: the values that the CHECK constraints of app/models allow, and `==` on them.
use testify.Common.{Bool, true, false, Text, text_eq}

-- `ck_users__status_enum`
pub data UserStatus : Type 0 where
  new onboarding_phone onboarding_name pending_payment pending_approval : UserStatus
  rejected approved banned : UserStatus

-- `ck_tests__status_enum`
pub data TestStatus : Type 0 where
  draft active archived : TestStatus

-- `ck_attempts__status_enum`
pub data AttemptStatus : Type 0 where
  in_progress submitted expired : AttemptStatus

-- `ck_receipts__status_enum`
pub data ReceiptStatus : Type 0 where
  pending approved rejected : ReceiptStatus

-- A section key: one of the three of `VALID_SECTIONS`, or any other text.
pub data Section : Type 0 where
  rus_tili pedagogik kasbiy : Section
  other : Text → Section

abbrev pub is_in_progress : AttemptStatus → Bool
is_in_progress in_progress = true
is_in_progress _ = false

abbrev pub is_pending : ReceiptStatus → Bool
is_pending pending = true
is_pending _ = false

abbrev pub is_banned : UserStatus → Bool
is_banned banned = true
is_banned _ = false

abbrev pub is_approved : UserStatus → Bool
is_approved UserStatus.approved = true
is_approved _ = false

abbrev pub is_draft : TestStatus → Bool
is_draft draft = true
is_draft _ = false

abbrev pub is_active : TestStatus → Bool
is_active active = true
is_active _ = false

abbrev pub section_eq : Section → Section → Bool
section_eq rus_tili rus_tili = true
section_eq pedagogik pedagogik = true
section_eq kasbiy kasbiy = true
section_eq (other s) (other t) = text_eq s t
section_eq _ _ = false
