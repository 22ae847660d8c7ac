-- ===== src/Store/Mailboxes/Listed.antt =====
-- What listing the mailboxes of an account does to their rows.
use mathlib.Core.List.{append-nil}
use imapped.Base.{
  ℕ, ◌≤◌, ◌≡◌, refl, ap, ◌∙◌, sym, Bool, true, Option, none, some, List, [], ◌∷◌, ◌++◌, map, arith,
  select, count, Bool-cases, inl, inr,
}
use imapped.Base.Text.{Text, same-eq, same_refl}
use imapped.Store.Sql.{update_where, head_of, count-kept, count-append}
use imapped.Store.Tables.{Mailbox, Database}
use imapped.Store.Mailboxes.{
  UpsertMailboxParams, has_canonical, relist, first_listed, upsert_mailbox, insert_or_relist,
  listed_row,
}

-- The columns of a mailbox that the sync keeps for itself.
pub record Progress : Type 0 where
  pub id : ℕ
  pub uid_validity : Option ℕ
  pub uid_next : Option ℕ
  pub highest_mod_seq : Option ℕ
  pub metadata_synced_through_uid : ℕ
  pub resync_required : Bool
  pub sync_generation : ℕ
  pub local_uid_next : ℕ

abbrev pub progress : Mailbox → Progress
progress b = record {
  id = b.id;
  uid_validity = b.uid_validity;
  uid_next = b.uid_next;
  highest_mod_seq = b.highest_mod_seq;
  metadata_synced_through_uid = b.metadata_synced_through_uid;
  resync_required = b.resync_required;
  sync_generation = b.sync_generation;
  local_uid_next = b.local_uid_next;
}

-- Nothing, or one new row's.
abbrev pub IsFresh : ℕ → List Progress → Type 0
IsFresh id [] = Unit
IsFresh id (a ∷ []) = (a.id ≡ id) × (a.uid_validity ≡ none) × (a.metadata_synced_through_uid ≡ 0)
IsFresh id (a ∷ b ∷ as') = ⊥

progress-update :
    (f : Mailbox → Bool) (p : UpsertMailboxParams) (bs : List Mailbox)
    → map progress (update_where f (relist p) bs) ≡ map progress bs
unfolding relist
progress-update f p [] = refl
progress-update f p (b ∷ bs) = ground (arith, progress-update f p bs)

map-append_one :
    (bs : List Mailbox) (b : Mailbox)
    → map progress (bs ++ b ∷ []) ≡ map progress bs ++ progress b ∷ []
map-append_one [] b = refl
map-append_one (a ∷ bs) b = ap (◌∷◌ (progress a)) (map-append_one bs b)

insert_or_relist-progress :
    (o : Option Mailbox) (p : UpsertMailboxParams) (db : Database)
    → (new : List Progress) × (map progress (insert_or_relist o p db).1.mailboxes
        ≡ map progress db.mailboxes ++ new)
      × IsFresh db.next_mailbox new
unfolding insert_or_relist first_listed
insert_or_relist-progress none p db = (
  progress (first_listed db.next_mailbox p) ∷ [],
  map-append_one db.mailboxes (first_listed db.next_mailbox p),
  (refl, refl, refl),
)
insert_or_relist-progress (some b) p db = (
  [],
  progress-update (has_canonical p.account_id p.canonical_name) p db.mailboxes
      ∙ sym (append-nil (map progress db.mailboxes)),
  tt,
)

-- Listing a mailbox keeps the progress of every mailbox, and adds at most one row, which has a fresh
-- id and has made no progress.
pub upsert_mailbox-progress :
    (p : UpsertMailboxParams) (db : Database)
    → (new : List Progress) × (map progress (upsert_mailbox p db).1.mailboxes
        ≡ map progress db.mailboxes ++ new)
      × IsFresh db.next_mailbox new
unfolding upsert_mailbox
upsert_mailbox-progress p db =
    insert_or_relist-progress (listed_row p.account_id p.canonical_name db) p db

-- At most one row has a key.
abbrev pub IsKeyed : Database → Type 0
IsKeyed db = (account_id : ℕ) (name : Text) → count (has_canonical account_id name) db.mailboxes ≤ 1

relist-has_canonical :
    (a : ℕ) (c : Text) (p : UpsertMailboxParams) (b : Mailbox)
    → has_canonical a c (relist p b) ≡ has_canonical a c b
unfolding relist has_canonical
relist-has_canonical a c p b = refl

first_listed-key :
    (a : ℕ) (c : Text) (id : ℕ) (p : UpsertMailboxParams)
    → has_canonical a c (first_listed id p) ≡ true
    → (a ≡ p.account_id) × (c ≡ p.canonical_name)
unfolding first_listed has_canonical
first_listed-key a c id p h = ground (arith, same-eq p.canonical_name c)

first_listed-has_canonical :
    (id : ℕ) (p : UpsertMailboxParams)
    → has_canonical p.account_id p.canonical_name (first_listed id p) ≡ true
unfolding first_listed has_canonical
first_listed-has_canonical id p = ground (arith, same_refl p.canonical_name)

head_none : (f : Mailbox → Bool) (bs : List Mailbox) → head_of (select f bs) ≡ none → count f bs ≡ 0
head_none f [] h = refl
head_none f (b ∷ bs) h = ground (arith, head_none f bs)

insert_or_relist-IsKeyed :
    (o : Option Mailbox) (p : UpsertMailboxParams) (db : Database)
    → listed_row p.account_id p.canonical_name db ≡ o
    → IsKeyed db
    → IsKeyed (insert_or_relist o p db).1
unfolding insert_or_relist listed_row first_listed
insert_or_relist-IsKeyed (some b) p db h k a c =
    rw
      (count-kept (has_canonical a c) (has_canonical p.account_id p.canonical_name) (relist p)
        (relist-has_canonical a c p) db.mailboxes)
      (k a c)
insert_or_relist-IsKeyed none p db h k a c =
    let new = first_listed db.next_mailbox p in
    let sum = count-append (has_canonical a c) db.mailboxes (new ∷ []) in
    elim (Bool-cases (has_canonical a c new)) [
      | inr other ↦ rw (sum, other) (omega (arith, k a c))
      | inl here ↦
          let key = first_listed-key a c db.next_mailbox p here in
          let row =
            ap (λ x. listed_row x c db) key.0 ∙ ap (λ x. listed_row p.account_id x db) key.1 ∙ h in
          rw (sum, here) (omega (arith, head_none (has_canonical a c) db.mailboxes row))
    ]

pub upsert_mailbox-IsKeyed :
    (p : UpsertMailboxParams) (db : Database) → IsKeyed db → IsKeyed (upsert_mailbox p db).1
unfolding upsert_mailbox
upsert_mailbox-IsKeyed p db k =
    insert_or_relist-IsKeyed (listed_row p.account_id p.canonical_name db) p db refl k

pub head-update :
    (f : Mailbox → Bool) (g : Mailbox → Mailbox) (bs : List Mailbox) (b : Mailbox)
    → ((r : Mailbox) → f (g r) ≡ f r)
    → head_of (select f bs) ≡ some b
    → head_of (select f (update_where f g bs)) ≡ some (g b)
head-update f g [] b same h = cc
head-update f g (a ∷ bs) b same h = ground (arith, same a, head-update f g bs b same)

head-append :
    (f : Mailbox → Bool) (bs : List Mailbox) (b : Mailbox)
    → f b ≡ true
    → head_of (select f bs) ≡ none
    → head_of (select f (bs ++ b ∷ [])) ≡ some b
head-append f [] b t h = rw t refl
head-append f (a ∷ bs) b t h = ground (arith, head-append f bs b)

insert_or_relist-row :
    (o : Option Mailbox) (p : UpsertMailboxParams) (db : Database)
    → listed_row p.account_id p.canonical_name db ≡ o
    → listed_row p.account_id p.canonical_name (insert_or_relist o p db).1
      ≡ some (insert_or_relist o p db).0
unfolding insert_or_relist listed_row
insert_or_relist-row (some b) p db h =
    head-update _ (relist p) db.mailboxes b (relist-has_canonical p.account_id p.canonical_name p) h
insert_or_relist-row none p db h =
    head-append _ db.mailboxes _ (first_listed-has_canonical db.next_mailbox p) h

listed_row-upsert :
    (p : UpsertMailboxParams) (db : Database)
    → listed_row p.account_id p.canonical_name (upsert_mailbox p db).1
      ≡ some (upsert_mailbox p db).0
unfolding upsert_mailbox
listed_row-upsert p db =
    insert_or_relist-row (listed_row p.account_id p.canonical_name db) p db refl

relisted-id :
    (o : Option Mailbox) (p : UpsertMailboxParams) (b : Mailbox) (db : Database)
    → o ≡ some b
    → (insert_or_relist o p db).0.id ≡ b.id
unfolding insert_or_relist relist
relisted-id none p b db h = cc
relisted-id (some a) p b db h = cc

-- Two mailboxes of one account whose canonical names agree share a row: listing the second returns
-- the row of the first.
pub upsert_mailbox-shared :
    (p q : UpsertMailboxParams) (db : Database)
    → q.account_id ≡ p.account_id
    → q.canonical_name ≡ p.canonical_name
    → (upsert_mailbox q (upsert_mailbox p db).1).0.id ≡ (upsert_mailbox p db).0.id
unfolding upsert_mailbox
upsert_mailbox-shared p q db e f = relisted-id _ q (upsert_mailbox p db).0 (upsert_mailbox p db).1 (
    ap (λ a. listed_row a q.canonical_name (upsert_mailbox p db).1) e
    ∙ ap (λ c. listed_row p.account_id c (upsert_mailbox p db).1) f
    ∙ listed_row-upsert p db)
