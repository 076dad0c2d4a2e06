-- ===== src/Arr/Import/Rejection.antt =====
-- When a file counts as rejected, and the tests of an import.
use media_processor.Prelude.{
  ◌≡◌, refl, ◌↔◌, true, List, [], ◌∷◌, Option, none, some, String, arith, eq_iff, AnyIn,
}
use media_processor.Text.{lower_contains}
use media_processor.Files.Paths.{FilePath}
use media_processor.Arr.Command.{is_not_upgrade_rejection, not_upgrade_marker}
use media_processor.Arr.Import.{
  ManualItem, Service, name_of, folder_of, any_rejected, rejected_answer,
}

-- A reason says that the stored file is as good or better.
abbrev pub IsUpgradeReason : String → Type 0
IsUpgradeReason m = lower_contains m not_upgrade_marker ≡ true

-- The entry has the name of the file, and such a reason.
abbrev pub IsRejection : Option FilePath → ManualItem → Type 0
IsRejection p i = (name_of i.path ≡ name_of p) × AnyIn IsUpgradeReason i.reasons

-- The service lists such an entry for the folder of the file.
abbrev pub IsRejected : Service → Option FilePath → Option String → Type 0
IsRejected s p download =
    (is : List ManualItem) × (s.manual_import (folder_of p) download ≡ some is)
    × AnyIn (IsRejection p) is

is_not_upgrade_rejection_iff :
    (ms : List String) → (is_not_upgrade_rejection ms ≡ true) ↔ AnyIn IsUpgradeReason ms
unfolding is_not_upgrade_rejection
is_not_upgrade_rejection_iff [] = (λ h. cc, λ h. absurd h)
is_not_upgrade_rejection_iff (m ∷ ms) = (
  λ h. ground (arith, (is_not_upgrade_rejection_iff ms).0),
  λ h. ground (arith, (is_not_upgrade_rejection_iff ms).1),
)

any_rejected_iff :
    (p : Option FilePath) (is : List ManualItem)
    → (any_rejected (name_of p) is ≡ true) ↔ AnyIn (IsRejection p) is
unfolding any_rejected
any_rejected_iff p [] = (λ h. cc, λ h. absurd h)
any_rejected_iff p (i ∷ is) = (
  λ h. ground (
    arith,
    eq_iff (name_of i.path) (name_of p),
    (is_not_upgrade_rejection_iff i.reasons).0,
    (any_rejected_iff p is).0,
  ),
  λ h. ground (
    arith,
    eq_iff (name_of i.path) (name_of p),
    (is_not_upgrade_rejection_iff i.reasons).1,
    (any_rejected_iff p is).1,
  ),
)

pub rejected_answer_iff :
    (p : Option FilePath) (a : Option (List ManualItem))
    → (rejected_answer (name_of p) a ≡ true)
      ↔ ((is : List ManualItem) × (a ≡ some is) × AnyIn (IsRejection p) is)
unfolding rejected_answer
rejected_answer_iff p none = (λ h. cc, λ (is, e, h). cc)
rejected_answer_iff p (some is) = (
  λ h. (is, refl, (any_rejected_iff p is).0 h),
  λ (js, e, h). ground (arith, (any_rejected_iff p js).1 h),
)
