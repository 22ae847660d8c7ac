-- ===== src/Syncer/Priority.antt =====
-- internal/syncer/engine.go: prioritise, the order in which mailboxes are synced.
pub mod Order
use imapped.Base.{ℕ, Bool, List, [], ◌∷◌, ◌||◌, ltb, if◌then◌else◌, reverse, any}
use imapped.Base.Text
use imapped.Base.Text.{Text, codes}

-- upstream.MailboxInfo (internal/upstream/commands.go)
pub record MailboxInfo : Type 0 where
  pub name : Text
  pub delimiter : ℕ
  pub attributes : List Text

abbrev pub roles : List Text
roles =
    codes "\\Sent"
    ∷ codes "\\Drafts"
    ∷ codes "\\Trash"
    ∷ codes "\\Junk"
    ∷ codes "\\Archive"
    ∷ codes "\\All"
    ∷ codes "\\Flagged"
    ∷ []

-- MailboxInfo.SpecialUse
unfoldable pub special_use : List Text → Text
special_use [] = []
special_use (attribute ∷ attributes) =
    if any (Text.same attribute) roles then attribute else special_use attributes

unfoldable pub rank : MailboxInfo → ℕ
unfolding special_use
rank b =
    let is = λ (attribute : Text). Text.same (special_use b.attributes) attribute in
    if Text.equal_fold b.name (codes "INBOX")
    then 0
    else if is (codes "\\Sent") || is (codes "\\Drafts")
    then 1
    else if is (codes "\\Archive") || is (codes "\\All")
    then 3
    else if is (codes "\\Trash") || is (codes "\\Junk")
    then 4
    else 2

-- The inner loop: a mailbox moves left past those of a higher rank. The part of the slice on its
-- left is listed from the right.
unfoldable pub sink : MailboxInfo → List MailboxInfo → List MailboxInfo
sink b [] = b ∷ []
sink b (c ∷ before) =
    let rest = sink b before in if ltb (rank b) (rank c) then c ∷ rest else b ∷ c ∷ before

unfoldable pub sort_onto : List MailboxInfo → List MailboxInfo → List MailboxInfo
unfolding sink
sort_onto before [] = before
sort_onto before (b ∷ boxes) = sort_onto (sink b before) boxes

unfoldable pub prioritise : List MailboxInfo → List MailboxInfo
unfolding sort_onto
prioritise boxes = reverse (sort_onto [] boxes)
