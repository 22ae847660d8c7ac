-- ===== src/Imapsrv/Flags.antt =====
-- internal/imapsrv/fetch.go: applyFlagChange and dedupe; internal/imapsrv/search.go: hasFlag.
pub mod Changes
use imapped.Base.{Bool, true, false, not, List, [], ◌∷◌, ◌++◌, if◌then◌else◌, select, any}
use imapped.Base.Text
use imapped.Base.Text.{Text}

pub data StoreFlagsOp : Type 0 where
  set_flags add_flags del_flags : StoreFlagsOp

pub record StoreFlags : Type 0 where
  pub op : StoreFlagsOp
  pub silent : Bool
  pub flags : List Text

unfoldable pub has_flag : List Text → Text → Bool
has_flag flags want = any (λ flag. Text.equal_fold flag want) flags

unfoldable pub dedupe_onto : List Text → List Text → List Text
dedupe_onto out [] = out
dedupe_onto out (value ∷ values) =
    dedupe_onto
      (if any (λ existing. Text.equal_fold existing value) out then out else out ++ value ∷ [])
      values

unfoldable pub dedupe : List Text → List Text
unfolding dedupe_onto
dedupe = dedupe_onto []

unfoldable pub apply_flag_change : List Text → StoreFlags → List Text
unfolding dedupe
apply_flag_change current change = elim change.op [
  | set_flags ↦ dedupe change.flags
  | add_flags ↦ dedupe (current ++ change.flags)
  | del_flags ↦ select (λ flag. not (any (λ r. Text.equal_fold r flag) change.flags)) current
]
