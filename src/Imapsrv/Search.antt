-- ===== src/Imapsrv/Search.antt =====
-- internal/imapsrv/search.go: the evaluation of SEARCH criteria. A zero date or size in the criteria
-- stands for none, as in the source; message sets are those of the vendored library.
use imapped.Base.{
  ℕ, Bool, true, false, ◌&&◌, ◌||◌, not, Option, none, some, List, [], ◌∷◌, ltb, leb, is_empty,
  if◌then◌else◌,
}
use imapped.Base.Text
use imapped.Base.Text.{Text, codes}
use imapped.Syncer.NumSets.{NumSets}
use imapped.Imapsrv.Flags.{has_flag}
use imapped.Imapsrv.Sections.{Summary, join}

-- The conditions of one level, less Not and Or.
pub record Conditions (S : Type 0) : Type 0 where
  pub seq_num : List S
  pub uid : List S
  pub flag : List Text
  pub not_flag : List Text
  pub larger : ℕ
  pub smaller : ℕ
  pub since : Option ℕ
  pub before : Option ℕ
  pub header : List (Text × Text)
  pub body : List Text
  pub text : List Text

mutual
  pub data Criteria (S : Type 0) : Type 0 where
    criteria : Conditions S → Nots S → Ors S → Criteria S

  pub data Nots (S : Type 0) : Type 0 where
    no_more : Nots S
    excluding : Criteria S → Nots S → Nots S

  pub data Ors (S : Type 0) : Type 0 where
    no_ors : Ors S
    either : Criteria S → Criteria S → Ors S → Ors S

abbrev pub every {ℓ} : {A : Type ℓ} → (A → Bool) → List A → Bool
every p [] = true
every p (a ∷ as') = p a && every p as'

unfoldable pub contains_fold : Text → Text → Bool
contains_fold haystack needle =
    is_empty needle || Text.contains (Text.to_lower haystack) (Text.to_lower needle)

unfoldable pub header_matches : Summary → Text → Text → Bool
unfolding contains_fold
header_matches m key value =
    if Text.same (Text.to_lower key) (codes "subject")
    then contains_fold m.subject value
    else if Text.same (Text.to_lower key) (codes "from")
    then contains_fold (join (codes " ") m.from) value
    else false

abbrev pub date_at_least : Option ℕ → ℕ → Bool
date_at_least none bound = false
date_at_least (some d) bound = leb bound d

abbrev pub date_before : Option ℕ → ℕ → Bool
date_before none bound = false
date_before (some d) bound = ltb d bound

abbrev pub within : (ℕ → Bool) → Option ℕ → Bool
within p none = true
within p (some bound) = p bound

module _ (sets : NumSets) where
  unfoldable pub conditions_hold : Summary → ℕ → Conditions sets.Set → Bool
  unfolding header_matches
  conditions_hold m seq_num c =
      every (λ s. sets.contains s seq_num) c.seq_num
      && every (λ s. sets.contains s m.local_uid) c.uid
      && every (has_flag m.flags) c.flag
      && every (λ f. not (has_flag m.flags f)) c.not_flag
      && not (ltb 0 c.larger && leb m.size c.larger)
      && not (ltb 0 c.smaller && leb c.smaller m.size)
      && within (date_at_least m.internal_date) c.since
      && within (date_before m.internal_date) c.before
      && every (λ h. header_matches m h.0 h.1) c.header
      && every (contains_fold m.preview) c.body
      && every
          (λ t.
            contains_fold m.subject t
            || contains_fold m.preview t
            || contains_fold (join (codes " ") m.from) t)
          c.text

  unfoldable mutual
    pub matches_criteria : Summary → ℕ → Criteria sets.Set → Bool
    matches_criteria m seq_num (criteria c nots ors) =
        conditions_hold m seq_num c && none_match m seq_num nots && ors_match m seq_num ors

    pub none_match : Summary → ℕ → Nots sets.Set → Bool
    none_match m seq_num no_more = true
    none_match m seq_num (excluding c nots) =
        not (matches_criteria m seq_num c) && none_match m seq_num nots

    pub ors_match : Summary → ℕ → Ors sets.Set → Bool
    ors_match m seq_num no_ors = true
    ors_match m seq_num (either a b ors) =
        (matches_criteria m seq_num a || matches_criteria m seq_num b) && ors_match m seq_num ors
