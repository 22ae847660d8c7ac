-- ===== src/Imapsrv/Flags/Changes.antt =====
-- What a flag change leaves set.
use imapped.Base.{
  ◌≡◌, refl, sym, ◌∙◌, inl, inr, Bool, true, not, ◌&&◌, ◌||◌, List, [], ◌∷◌, ◌++◌, arith, select,
  any, Bool-cases, any-append, or_false,
}
use imapped.Base.Text
use imapped.Base.Text.{Text}
use imapped.Imapsrv.Flags.{
  StoreFlags, StoreFlagsOp, set_flags, add_flags, del_flags, has_flag, dedupe_onto, dedupe,
  apply_flag_change,
}

-- An independent account of a change: is the flag set afterwards?
abbrev pub is_set_after : List Text → StoreFlags → Text → Bool
is_set_after current change f = elim change.op [
  | set_flags ↦ has_flag change.flags f
  | add_flags ↦ has_flag current f || has_flag change.flags f
  | del_flags ↦ has_flag current f && not (has_flag change.flags f)
]

same_flag_absorbs :
    (out : List Text) (v f : Text)
    → any (λ existing. Text.equal_fold existing v) out ≡ true
    → Text.equal_fold v f ≡ true
    → has_flag out f ≡ true
unfolding has_flag
same_flag_absorbs [] v f h k = cc
same_flag_absorbs (o ∷ out) v f h k = elim (Bool-cases (Text.equal_fold o v)) [
  | inl e ↦ rw (Text.equal_fold_trans o v f e k) refl
  | inr e ↦ ground (arith, same_flag_absorbs out v f, h, e, k)
]

has_flag-append :
    (a b : List Text) (f : Text) → has_flag (a ++ b) f ≡ (has_flag a f || has_flag b f)
unfolding has_flag
has_flag-append a b f = any-append _ a b

dedupe_onto-has_flag :
    (out values : List Text) (f : Text)
    → has_flag (dedupe_onto out values) f ≡ (has_flag out f || has_flag values f)
unfolding dedupe_onto has_flag
dedupe_onto-has_flag out [] f = sym (or_false (has_flag out f))
dedupe_onto-has_flag out (v ∷ values) f =
    elim (Bool-cases (any (λ existing. Text.equal_fold existing v) out)) [
      | inl e ↦
          rw e (dedupe_onto-has_flag out values f ∙ ground (arith, same_flag_absorbs out v f e))
      | inr e ↦ rw e (
          dedupe_onto-has_flag (out ++ v ∷ []) values f
          ∙ ground (arith, has_flag-append out (v ∷ []) f))
    ]

kept-has_flag :
    (current requested : List Text) (f : Text)
    → has_flag (select (λ flag. not (any (λ r. Text.equal_fold r flag) requested)) current) f
      ≡ (has_flag current f && not (has_flag requested f))
unfolding has_flag
kept-has_flag [] requested f = refl
kept-has_flag (c ∷ current) requested f =
    elim (Bool-cases (any (λ r. Text.equal_fold r c) requested)) [
      | inl e ↦
          rw e
            (ground (arith, kept-has_flag current requested f, same_flag_absorbs requested c f e))
      | inr e ↦ rw e (
          ground (
            arith,
            kept-has_flag current requested f,
            e,
            same_flag_absorbs requested f c,
            Text.equal_fold_sym c f,
          ))
    ]

-- After STORE a flag is set exactly when the change says so, whatever the letters' case: setting
-- leaves the requested flags, adding the old and the requested, removing the old less the
-- requested.
pub apply_flag_change-has_flag :
    (current : List Text) (change : StoreFlags) (f : Text)
    → has_flag (apply_flag_change current change) f ≡ is_set_after current change f
unfolding apply_flag_change dedupe has_flag
apply_flag_change-has_flag current change f = go change.op
  where
    go :
        (op : StoreFlagsOp)
        → has_flag (apply_flag_change current (record change { op = op })) f
          ≡ is_set_after current (record change { op = op }) f
    go set_flags = dedupe_onto-has_flag [] change.flags f
    go add_flags =
        dedupe_onto-has_flag [] (current ++ change.flags) f ∙ has_flag-append current change.flags f
    go del_flags = kept-has_flag current change.flags f
