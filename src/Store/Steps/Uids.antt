-- ===== src/Store/Steps/Uids.antt =====
-- The ids of the rows and the UIDs that this server shows to mail clients.
use imapped.Base.{
  ℕ, suc, ◌+◌, ◌≤◌, ◌≡◌, refl, ap, ◌∙◌, inl, inr, Bool, true, false, ◌&&◌, not, Option, none, some,
  List, [], ◌∷◌, ◌++◌, any, arith, ltb, ◌==◌, if◌then◌else◌, select, count, Bool-cases,
  Option-cases, ==_iff,
}
use imapped.Store.Sql.{update_where, member, head_of, count-kept, count-append, count-select}
use imapped.Store.Tables.{pending, skipped_too_large, Entry, Mailbox, Database}
use imapped.Store.Messages.{
  MessageMeta, upsert_entry, update_flags, holds_uid, has_id, nullable_int, allocate_uid,
}
use imapped.Store.Bodies.{
  claim_pending_bodies, start_fetching, relink, record_body, store_at, mark_body_failed, give_up,
  mark_body_too_large, reap_stale_claims, is_abandoned, claimable_ids,
}
use imapped.Store.Mailboxes.{
  delete_missing_uids, is_missing, save_checkpoint, finish_scan, advance_scan,
  reset_for_uid_validity_change, forget_uids, restart_scan, refresh_mailbox_counts,
  count_mailbox_messages, count_unseen, UpsertMailboxParams, upsert_mailbox, insert_or_relist,
  listed_row, relist, has_canonical, delete_mailboxes_except, is_unlisted,
}
use imapped.Store.Steps.{
  Change, apply, upserts, updates_flags, claims, attaches, fails, skips, reaps, deletes, saves,
  resets, recounts, lists, unlists,
}
use imapped.Store.Steps.Upserts.{AllSome, upsert_batch-keeps, attach_body-keeps}

abbrev pub allowed : ℕ → ℕ → ℕ
allowed i next = if ltb i next then 1 else 0

unfoldable pub next_uid : ℕ → List Mailbox → ℕ
next_uid mailbox_id [] = 0
next_uid mailbox_id (b ∷ mailboxes) =
    if b.id == mailbox_id then b.local_uid_next else next_uid mailbox_id mailboxes

abbrev pub has_number : ℕ → Entry → Bool
has_number i e = e.id == i

abbrev pub shows : ℕ → ℕ → Entry → Bool
shows mailbox_id uid e = e.mailbox_id == mailbox_id && e.local_uid == uid

-- No id and, within a mailbox, no local UID stands twice, and none that was not allocated.
abbrev pub AreNumbered : List Entry → List Mailbox → ℕ → Type 0
AreNumbered entries mailboxes next =
    ((i : ℕ) → count (has_number i) entries ≤ allowed i next)
    × ((mailbox_id uid : ℕ)
        → count (shows mailbox_id uid) entries ≤ allowed uid (next_uid mailbox_id mailboxes))

abbrev pub IsNumbered : Database → Type 0
IsNumbered db = AreNumbered db.entries db.mailboxes db.next_entry

pub next_uid-update :
    (p : Mailbox → Bool) (f : Mailbox → Mailbox)
    → ((b : Mailbox) → (f b).id ≡ b.id)
    → ((b : Mailbox) → b.local_uid_next ≤ (f b).local_uid_next)
    → (i : ℕ) (mailboxes : List Mailbox)
    → next_uid i mailboxes ≤ next_uid i (update_where p f mailboxes)
unfolding next_uid
next_uid-update p f k l i [] = omega arith
next_uid-update p f k l i (b ∷ mailboxes) =
    ground (arith, k b, l b, next_uid-update p f k l i mailboxes)

abbrev pub uid_at_head : (ℕ → ℕ) → Option Mailbox → ℕ
uid_at_head f none = 0
uid_at_head f (some b) = f b.local_uid_next

pub next_uid-head :
    (i : ℕ) (mailboxes : List Mailbox)
    → next_uid i mailboxes ≡ uid_at_head (λ n. n) (head_of (select (has_id i) mailboxes))
unfolding next_uid
next_uid-head i [] = refl
next_uid-head i (c ∷ mailboxes) = elim (Bool-cases (c.id == i)) [
  | inl e ↦ rw e refl
  | inr e ↦ rw e (next_uid-head i mailboxes)
]

next_uid-allocate :
    (i : ℕ) (mailboxes : List Mailbox)
    → next_uid i (allocate_uid i mailboxes)
      ≡ uid_at_head (λ n. suc n) (head_of (select (has_id i) mailboxes))
unfolding next_uid allocate_uid
next_uid-allocate i [] = refl
next_uid-allocate i (c ∷ mailboxes) = elim (Bool-cases (c.id == i)) [
  | inl e ↦ rw e (rw e refl)
  | inr e ↦ rw e (rw e (next_uid-allocate i mailboxes))
]

allocate_uid-grows :
    (j i : ℕ) (mailboxes : List Mailbox)
    → next_uid i mailboxes ≤ next_uid i (allocate_uid j mailboxes)
unfolding allocate_uid
allocate_uid-grows j i mailboxes =
    next_uid-update (has_id j) (λ b. record b { local_uid_next = suc b.local_uid_next }) (λ b. refl)
      (λ b. omega arith) i mailboxes

allocated :
    (j i uid c : ℕ) (mailboxes : List Mailbox) (b : Mailbox)
    → head_of (select (has_id j) mailboxes) ≡ some b
    → c ≤ allowed uid (next_uid i mailboxes)
    → c + (if j == i && b.local_uid_next == uid then 1 else 0)
      ≤ allowed uid (next_uid i (allocate_uid j mailboxes))
allocated j i uid c mailboxes b e h = elim (Bool-cases (j == i)) [
  | inl k ↦ rw k (
      ground (
        arith,
        h,
        ap (λ n. next_uid n mailboxes) ((==_iff j i).0 k),
        ap (λ n. next_uid n (allocate_uid j mailboxes)) ((==_iff j i).0 k),
        next_uid-head j mailboxes ∙ ap (uid_at_head (λ n. n)) e,
        next_uid-allocate j mailboxes ∙ ap (uid_at_head (λ n. suc n)) e,
      ))
  | inr k ↦ rw k (ground (arith, h, allocate_uid-grows j i mailboxes))
]

wider :
    (entries : List Entry) (mailboxes mailboxes' : List Mailbox) (next : ℕ)
    → ((i : ℕ) → next_uid i mailboxes ≤ next_uid i mailboxes')
    → AreNumbered entries mailboxes next
    → AreNumbered entries mailboxes' next
wider entries mailboxes mailboxes' next k h = (h.0, λ i u. ground (arith, k i, h.1 i u))

updated :
    (p : Entry → Bool) (f : Entry → Entry) (entries : List Entry) (mailboxes : List Mailbox)
    (next : ℕ)
    → ((e : Entry) → (f e).id ≡ e.id)
    → ((e : Entry) → (f e).mailbox_id ≡ e.mailbox_id)
    → ((e : Entry) → (f e).local_uid ≡ e.local_uid)
    → AreNumbered entries mailboxes next
    → AreNumbered (update_where p f entries) mailboxes next
updated p f entries mailboxes next k l m h = (
  λ i. rw (count-kept (has_number i) p f (λ e. rw (k e) refl) entries) (h.0 i),
  λ i u. rw (count-kept (shows i u) p f (λ e. rw (l e) (rw (m e) refl)) entries) (h.1 i u),
)

pub upsert_entry-IsNumbered :
    (meta : MessageMeta) (message_id : ℕ) (db : Database)
    → IsNumbered db
    → AllSome (λ r. IsNumbered r.1) (upsert_entry meta message_id db)
unfolding upsert_entry
upsert_entry-IsNumbered meta message_id db h =
    elim (Option-cases (head_of (select (has_id meta.mailbox_id) db.mailboxes))) [
      | inl e ↦ rw (e, upsert_entry) tt
      | inr e ↦
          elim (Option-cases
            (head_of (select (holds_uid meta.mailbox_id meta.upstream_uid) db.entries))) [
              | inl k ↦
                  rw (e.1, upsert_entry)
                    (rw k (
                      λ i. rw (count-append (has_number i) db.entries _) (ground (arith, h.0 i)),
                      λ i u. rw (count-append (shows i u) db.entries _) (
                          allocated meta.mailbox_id i u (count (shows i u) db.entries) db.mailboxes
                            e.0 e.1 (h.1 i u)),
                    ))
              | inr k ↦
                  rw (e.1, upsert_entry)
                    (rw k.1 (
                      updated (holds_uid meta.mailbox_id meta.upstream_uid)
                        (λ a. record a {
                          flags = meta.flags;
                          upstream_modseq = nullable_int meta.upstream_modseq;
                        })
                        db.entries _ db.next_entry (λ a. refl) (λ a. refl) (λ a. refl)
                        (wider db.entries db.mailboxes _ db.next_entry
                          (λ i. allocate_uid-grows meta.mailbox_id i db.mailboxes) h)))
            ]
    ]

deleted :
    (p : Entry → Bool) (entries : List Entry) (mailboxes : List Mailbox) (next : ℕ)
    → AreNumbered entries mailboxes next
    → AreNumbered (select p entries) mailboxes next
deleted p entries mailboxes next h = (
  λ i. ground (arith, h.0 i, count-select (has_number i) p entries),
  λ i u. ground (arith, h.1 i u, count-select (shows i u) p entries),
)

pub next_uid-append :
    (i : ℕ) (mailboxes : List Mailbox) (b : Mailbox)
    → next_uid i mailboxes ≤ next_uid i (mailboxes ++ b ∷ [])
unfolding next_uid
next_uid-append i [] b = omega arith
next_uid-append i (c ∷ mailboxes) b = ground (arith, next_uid-append i mailboxes b)

insert_or_relist-IsNumbered :
    (row : Option Mailbox) (p : UpsertMailboxParams) (db : Database)
    → IsNumbered db
    → IsNumbered (insert_or_relist row p db).1
unfolding insert_or_relist relist
insert_or_relist-IsNumbered none p db h =
    wider db.entries db.mailboxes _ db.next_entry (λ i. next_uid-append i db.mailboxes _) h
insert_or_relist-IsNumbered (some b) p db h =
    wider db.entries db.mailboxes _ db.next_entry
      (λ i.
        next_uid-update (has_canonical p.account_id p.canonical_name) (relist p) (λ a. refl)
          (λ a. omega arith) i db.mailboxes)
      h

-- A row that is deleted, with the entries of its mailbox.
abbrev pub is_deleted : (Mailbox → Bool) → List Mailbox → ℕ → Bool
is_deleted p mailboxes i = any (λ b. p b && b.id == i) mailboxes

pub next_uid-kept :
    (p : Mailbox → Bool) (i : ℕ) (mailboxes : List Mailbox)
    → is_deleted p mailboxes i ≡ false
    → next_uid i (select (λ b. not (p b)) mailboxes) ≡ next_uid i mailboxes
unfolding next_uid
next_uid-kept p i [] h = refl
next_uid-kept p i (b ∷ mailboxes) h = ground (arith, next_uid-kept p i mailboxes)

pub none_shown :
    (f : ℕ → Bool) (i u : ℕ) (entries : List Entry)
    → f i ≡ true
    → count (shows i u) (select (λ e. not (f e.mailbox_id)) entries) ≡ 0
none_shown f i u [] h = refl
none_shown f i u (e ∷ entries) h = elim (Bool-cases (e.mailbox_id == i)) [
  | inl k ↦ rw (ap f ((==_iff e.mailbox_id i).0 k) ∙ h) (none_shown f i u entries h)
  | inr k ↦ elim (Bool-cases (f e.mailbox_id)) [
    | inl g ↦ rw g (none_shown f i u entries h)
    | inr g ↦ rw (g, k) (none_shown f i u entries h)
  ]
]

cascaded :
    (p : Mailbox → Bool) (entries : List Entry) (mailboxes : List Mailbox) (next : ℕ)
    → AreNumbered entries mailboxes next
    → AreNumbered
        (select (λ e. not (is_deleted p mailboxes e.mailbox_id)) entries)
        (select (λ b. not (p b)) mailboxes)
        next
cascaded p entries mailboxes next h = (
  λ i. ground (
    arith,
    h.0 i,
    count-select (has_number i) (λ e. not (is_deleted p mailboxes e.mailbox_id)) entries,
  ),
  λ i u. elim (Bool-cases (is_deleted p mailboxes i)) [
    | inl k ↦ rw (none_shown (is_deleted p mailboxes) i u entries k) (omega arith)
    | inr k ↦ rw (next_uid-kept p i mailboxes k) (
        omega (
          arith,
          h.1 i u,
          count-select (shows i u) (λ e. not (is_deleted p mailboxes e.mailbox_id)) entries,
        ))
  ],
)

-- Every change to the tables keeps the numbers: no row id and, within a mailbox, no UID shown to
-- clients stands twice, and each id and UID in use is below its counter.
pub apply-IsNumbered : (c : Change) (db : Database) → IsNumbered db → IsNumbered (apply c db)
unfolding apply update_flags claim_pending_bodies start_fetching mark_body_failed give_up
    mark_body_too_large reap_stale_claims delete_missing_uids save_checkpoint finish_scan
    advance_scan reset_for_uid_validity_change forget_uids restart_scan refresh_mailbox_counts
    relink record_body store_at upsert_mailbox delete_mailboxes_except
apply-IsNumbered (upserts metas) db h =
    upsert_batch-keeps IsNumbered (λ ms n d k. k) upsert_entry-IsNumbered metas db h
apply-IsNumbered (updates_flags mailbox_id uid flags modseq) db h =
    updated (holds_uid mailbox_id uid)
      (λ a. record a {
        flags = flags;
        upstream_modseq = if modseq == 0 then a.upstream_modseq else some modseq;
      })
      db.entries db.mailboxes db.next_entry (λ a. refl) (λ a. refl) (λ a. refl) h
apply-IsNumbered (claims locked mailbox_id limit max_attempts now) db h =
    updated (λ e. member e.id (claimable_ids locked mailbox_id limit max_attempts db))
      (start_fetching now) db.entries db.mailboxes db.next_entry (λ a. refl) (λ a. refl) (λ a. refl)
      h
apply-IsNumbered (attaches entry_id digest size blob_key) db h =
    attach_body-keeps IsNumbered entry_id size digest blob_key db
      (λ m x.
        updated (λ a. a.id == entry_id) (store_at x) db.entries db.mailboxes db.next_entry
          (λ a. refl) (λ a. refl) (λ a. refl))
      (λ m.
        updated (λ a. a.id == entry_id) (λ a. store_at a.message_id a) db.entries db.mailboxes
          db.next_entry (λ a. refl) (λ a. refl) (λ a. refl))
      h
apply-IsNumbered (fails entry_id message max_attempts) db h =
    updated (λ a. a.id == entry_id) (give_up message max_attempts) db.entries db.mailboxes
      db.next_entry (λ a. refl) (λ a. refl) (λ a. refl) h
apply-IsNumbered (skips entry_id) db h =
    updated (λ a. a.id == entry_id)
      (λ a. record a { body_state = skipped_too_large; claimed_at = none }) db.entries db.mailboxes
      db.next_entry (λ a. refl) (λ a. refl) (λ a. refl) h
apply-IsNumbered (reaps older_than now) db h =
    updated (is_abandoned older_than now)
      (λ a. record a { body_state = pending; claimed_at = none }) db.entries db.mailboxes
      db.next_entry (λ a. refl) (λ a. refl) (λ a. refl) h
apply-IsNumbered (deletes mailbox_id present) db h =
    deleted (λ e. not (e.mailbox_id == mailbox_id && is_missing present e.upstream_uid)) db.entries
      db.mailboxes db.next_entry h
apply-IsNumbered (saves now mailbox_id c) db h =
    wider db.entries db.mailboxes _ db.next_entry
      (λ i.
        next_uid-update (has_id mailbox_id)
          (if c.full_scan_completed then finish_scan now c else advance_scan c) (λ b. ground arith)
          (λ b. ground arith) i db.mailboxes)
      h
apply-IsNumbered (resets mailbox_id uid_validity) db h =
    wider _ db.mailboxes _ db.next_entry
      (λ i.
        next_uid-update (has_id mailbox_id) (restart_scan uid_validity) (λ b. refl)
          (λ b. omega arith) i db.mailboxes)
      (updated (λ e. e.mailbox_id == mailbox_id) forget_uids db.entries db.mailboxes db.next_entry
        (λ a. refl) (λ a. refl) (λ a. refl) h)
apply-IsNumbered (recounts mailbox_id) db h =
    wider db.entries db.mailboxes _ db.next_entry
      (λ i.
        next_uid-update (has_id mailbox_id)
          (λ b. record b {
            exists_count = count_mailbox_messages mailbox_id db;
            unseen_count = count_unseen mailbox_id db;
          })
          (λ b. refl) (λ b. omega arith) i db.mailboxes)
      h
apply-IsNumbered (lists params) db h =
    insert_or_relist-IsNumbered (listed_row params.account_id params.canonical_name db) params db h
apply-IsNumbered (unlists account_id keep) db h =
    cascaded (is_unlisted account_id keep) db.entries db.mailboxes db.next_entry h
