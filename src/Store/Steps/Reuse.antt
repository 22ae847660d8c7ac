-- ===== src/Store/Steps/Reuse.antt =====
-- Ids and UIDs are not given a second time, also when their rows are gone.
use imapped.Base.{
  ℕ, suc, ◌≤◌, ◌<◌, ◌≡◌, refl, ap, ◌∙◌, inl, inr, ◌⊎◌, Bool, true, false, ◌&&◌, not, Option, none,
  some, List, [], ◌∷◌, ◌++◌, arith, ◌==◌, select, count, Bool-cases, Option-cases, ==_iff,
}
use imapped.Store.Sql.{update_where, head_of, count-kept, count-append, count-select}
use imapped.Store.Tables.{Entry, Mailbox, Database}
use imapped.Store.Messages.{
  MessageMeta, upsert_entry, holds_uid, has_id, nullable_int, allocate_uid,
}
use imapped.Store.Mailboxes.{
  UpsertMailboxParams, insert_or_relist, relist, has_canonical, first_listed,
}
use imapped.Store.Steps.Uids.{
  allowed, next_uid, has_number, shows, is_deleted, next_uid-kept, next_uid-append, next_uid-update,
  next_uid-head, uid_at_head,
}
use imapped.Store.Steps.Upserts.{AllSome}

-- No mailbox id stands twice, and none that was not drawn from the sequence.
abbrev pub HasIds : Database → Type 0
HasIds db = (i : ℕ) → count (has_id i) db.mailboxes ≤ allowed i db.next_mailbox

-- The UID has been given in a mailbox, which may be deleted by now.
abbrev pub IsSpent : ℕ → ℕ → Database → Type 0
IsSpent mailbox_id uid db =
    (uid < next_uid mailbox_id db.mailboxes)
    ⊎ ((mailbox_id < db.next_mailbox) × (count (has_id mailbox_id) db.mailboxes ≡ 0))

-- What happens to the ids and the UIDs between two states of the tables.
pub record Later (db db' : Database) : Type 0 where
  pub ids : HasIds db'
  pub sequence : db.next_entry ≤ db'.next_entry
  pub rows :
      (i : ℕ)
      → i < db.next_entry
      → count (has_number i) db'.entries ≤ count (has_number i) db.entries
  pub spent : (m u : ℕ) → IsSpent m u db → IsSpent m u db'
  pub uids :
      (m u : ℕ) → IsSpent m u db → count (shows m u) db'.entries ≤ count (shows m u) db.entries

pub Later-refl : (db : Database) → HasIds db → Later db db
Later-refl db h = record {
  ids = h;
  sequence = omega arith;
  rows = λ i k. omega arith;
  spent = λ m u k. k;
  uids = λ m u k. omega arith;
}

pub Later-trans : (a b c : Database) → Later a b → Later b c → Later a c
Later-trans a b c h k = record {
  ids = k.ids;
  sequence = omega (arith, h.sequence, k.sequence);
  rows = λ i l. omega (arith, h.rows i l, k.rows i (omega (arith, h.sequence, l)));
  spent = λ m u l. k.spent m u (h.spent m u l);
  uids = λ m u l. omega (arith, h.uids m u l, k.uids m u (h.spent m u l));
}

-- Mailboxes under an UPDATE that does not lower a counter.
pub boxes_updated :
    (p : Mailbox → Bool) (f : Mailbox → Mailbox) (db : Database)
    → ((b : Mailbox) → (f b).id ≡ b.id)
    → ((b : Mailbox) → b.local_uid_next ≤ (f b).local_uid_next)
    → HasIds db
    → Later db (record db { mailboxes = update_where p f db.mailboxes })
boxes_updated p f db k l h =
    let same = λ (i : ℕ). count-kept (has_id i) p f (λ b. rw (k b) refl) db.mailboxes in
    record {
      ids = λ i. rw (same i) (h i);
      sequence = omega arith;
      rows = λ i n. omega arith;
      spent = λ m u s. elim s [
        | inl a ↦ inl (omega (arith, a, next_uid-update p f k l m db.mailboxes))
        | inr a ↦ inr (a.0, same m ∙ a.1)
      ];
      uids = λ m u s. omega arith;
    }

pub entries_updated :
    (p : Entry → Bool) (f : Entry → Entry) (db : Database)
    → ((e : Entry) → (f e).id ≡ e.id)
    → ((e : Entry) → (f e).mailbox_id ≡ e.mailbox_id)
    → ((e : Entry) → (f e).local_uid ≡ e.local_uid)
    → HasIds db
    → Later db (record db { entries = update_where p f db.entries })
entries_updated p f db k l n h = record {
  ids = h;
  sequence = omega arith;
  rows = λ i r. rw (count-kept (has_number i) p f (λ e. rw (k e) refl) db.entries) (omega arith);
  spent = λ m u s. s;
  uids = λ m u s.
      rw (count-kept (shows m u) p f (λ e. rw (l e) (rw (n e) refl)) db.entries) (omega arith);
}

pub entries_deleted :
    (p : Entry → Bool) (db : Database)
    → HasIds db
    → Later db (record db { entries = select p db.entries })
entries_deleted p db h = record {
  ids = h;
  sequence = omega arith;
  rows = λ i r. count-select (has_number i) p db.entries;
  spent = λ m u s. s;
  uids = λ m u s. count-select (shows m u) p db.entries;
}

known :
    (p : Mailbox → Bool) (i : ℕ) (mailboxes : List Mailbox)
    → is_deleted p mailboxes i ≡ true
    → 1 ≤ count (has_id i) mailboxes
known p i [] h = cc
known p i (b ∷ mailboxes) h = ground (arith, h, known p i mailboxes)

none_left :
    (p : Mailbox → Bool) (i : ℕ) (mailboxes : List Mailbox)
    → is_deleted p mailboxes i ≡ true
    → count (has_id i) mailboxes ≤ 1
    → count (has_id i) (select (λ b. not (p b)) mailboxes) ≡ 0
none_left p i [] h k = cc
none_left p i (b ∷ mailboxes) h k = ground (
  arith,
  h,
  k,
  known p i mailboxes,
  none_left p i mailboxes,
  count-select (has_id i) (λ b. not (p b)) mailboxes,
)

pub boxes_deleted :
    (p : Mailbox → Bool) (db : Database)
    → HasIds db
    → Later db (record db {
      mailboxes = select (λ b. not (p b)) db.mailboxes;
      entries = select (λ e. not (is_deleted p db.mailboxes e.mailbox_id)) db.entries;
    })
boxes_deleted p db h = record {
  ids = λ i. omega (arith, h i, count-select (has_id i) (λ b. not (p b)) db.mailboxes);
  sequence = omega arith;
  rows = λ i r. count-select (has_number i) _ db.entries;
  spent = λ m u s. elim (Bool-cases (is_deleted p db.mailboxes m)) [
    | inl k ↦ inr (
      ground (arith, h m, known p m db.mailboxes k),
      none_left p m db.mailboxes k (ground (arith, h m)),
    )
    | inr k ↦ elim s [
      | inl a ↦ inl (rw (next_uid-kept p m db.mailboxes k) a)
      | inr a ↦ inr (a.0, omega (arith, a.1, count-select (has_id m) (λ b. not (p b)) db.mailboxes))
    ]
  ];
  uids = λ m u s. count-select (shows m u) _ db.entries;
}

pub insert_or_relist-Later :
    (row : Option Mailbox) (p : UpsertMailboxParams) (db : Database)
    → HasIds db
    → Later db (insert_or_relist row p db).1
unfolding insert_or_relist relist first_listed
insert_or_relist-Later none p db h =
    let new = first_listed db.next_mailbox p in
    let sum = λ (i : ℕ). count-append (has_id i) db.mailboxes (new ∷ []) in
    record {
      ids = λ i. rw (sum i) (ground (arith, h i));
      sequence = omega arith;
      rows = λ i r. omega arith;
      spent = λ m u s. elim s [
        | inl a ↦ inl (omega (arith, a, next_uid-append m db.mailboxes new))
        | inr a ↦ inr (omega (arith, a.0), rw (sum m) (ground (arith, a.0, a.1)))
      ];
      uids = λ m u s. omega arith;
    }
insert_or_relist-Later (some b) p db h =
    let kept =
      boxes_updated (has_canonical p.account_id p.canonical_name) (relist p) db (λ a. refl)
        (λ a. omega arith) h in
    record {
      ids = λ i. ground (arith, kept.ids i);
      sequence = kept.sequence;
      rows = kept.rows;
      spent = λ m u s. elim (kept.spent m u s) [
        | inl a ↦ inl a
        | inr a ↦ inr (omega (arith, a.0), a.1)
      ];
      uids = kept.uids;
    }

head-known :
    (p : Mailbox → Bool) (rows : List Mailbox) (b : Mailbox)
    → head_of (select p rows) ≡ some b
    → 1 ≤ count p rows
head-known p [] b h = cc
head-known p (a ∷ rows) b h = ground (arith, head-known p rows b)

-- The UID that an INSERT draws has not been given.
unspent :
    (j m u : ℕ) (db : Database) (b : Mailbox)
    → head_of (select (has_id j) db.mailboxes) ≡ some b
    → IsSpent m u db
    → (j == m && b.local_uid_next == u) ≡ false
unspent j m u db b e s = elim (Bool-cases (j == m)) [
  | inr k ↦ rw k refl
  | inl k ↦ elim s [
    | inl a ↦ ground (
      arith,
      a,
      ap (λ n. next_uid n db.mailboxes) ((==_iff j m).0 k),
      next_uid-head j db.mailboxes ∙ ap (uid_at_head (λ n. n)) e,
    )
    | inr a ↦ ground (
      arith,
      a.1,
      ap (λ n. count (has_id n) db.mailboxes) ((==_iff j m).0 k),
      head-known (has_id j) db.mailboxes b e,
    )
  ]
]

entry_added :
    (new : Entry) (b : Mailbox) (db : Database)
    → head_of (select (has_id new.mailbox_id) db.mailboxes) ≡ some b
    → new.id ≡ db.next_entry
    → new.local_uid ≡ b.local_uid_next
    → HasIds db
    → Later db (record db {
      mailboxes = allocate_uid new.mailbox_id db.mailboxes;
      entries = db.entries ++ new ∷ [];
      next_entry = suc db.next_entry;
    })
unfolding allocate_uid
entry_added new b db e k l h =
    let grown =
      boxes_updated (has_id new.mailbox_id)
        (λ b. record b { local_uid_next = suc b.local_uid_next }) db (λ b. refl) (λ b. omega arith)
        h in
    record {
      ids = grown.ids;
      sequence = omega arith;
      rows = λ i r. rw (count-append (has_number i) db.entries (new ∷ [])) (ground (arith, k, r));
      spent = grown.spent;
      uids = λ m u s.
          rw
            (count-append (shows m u) db.entries (new ∷ []), l, unspent new.mailbox_id m u db b e s)
            (omega arith);
    }

pub upsert_entry-Later :
    (meta : MessageMeta) (message_id : ℕ) (db : Database)
    → HasIds db
    → AllSome (λ r. Later db r.1) (upsert_entry meta message_id db)
unfolding upsert_entry allocate_uid
upsert_entry-Later meta message_id db h =
    let grown =
      boxes_updated (has_id meta.mailbox_id)
        (λ b. record b { local_uid_next = suc b.local_uid_next }) db (λ b. refl) (λ b. omega arith)
        h in
    elim (Option-cases (head_of (select (has_id meta.mailbox_id) db.mailboxes))) [
      | inl e ↦ rw (e, upsert_entry) tt
      | inr e ↦
          elim (Option-cases
            (head_of (select (holds_uid meta.mailbox_id meta.upstream_uid) db.entries))) [
              | inl k ↦ rw (e.1, upsert_entry) (rw k (entry_added _ e.0 db e.1 refl refl h))
              | inr k ↦
                  rw (e.1, upsert_entry)
                    (rw k.1 (
                      Later-trans db _ _ grown (
                        entries_updated (holds_uid meta.mailbox_id meta.upstream_uid)
                          (λ a. record a {
                            flags = meta.flags;
                            upstream_modseq = nullable_int meta.upstream_modseq;
                          })
                          (record db { mailboxes = allocate_uid meta.mailbox_id db.mailboxes })
                          (λ a. refl) (λ a. refl) (λ a. refl) grown.ids)))
            ]
    ]
