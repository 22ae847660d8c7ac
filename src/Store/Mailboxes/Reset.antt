-- ===== src/Store/Mailboxes/Reset.antt =====
-- What stays of a mailbox's messages after the upstream server has renumbered it.
use imapped.Base.{
  ℕ, ◌≤◌, ◌≡◌, refl, inl, inr, Bool, true, false, ◌&&◌, not, Option, none, some, List, [], ◌∷◌,
  arith, ◌==◌, select, count, Option-cases, Bool-cases, All, if◌then◌else◌,
}
use imapped.Store.Sql.{head_of, is_some, count-append, update_where, member}
use imapped.Store.Tables.{Entry, Database, Mailbox, pending, skipped_too_large}
use imapped.Store.Messages.{
  MessageMeta, upsert_entry, holds_uid, has_id, nullable_int, update_flags,
}
use imapped.Store.Bodies.{
  claim_pending_bodies, start_fetching, relink, record_body, store_at, mark_body_failed, give_up,
  mark_body_too_large, reap_stale_claims, is_abandoned, claimable_ids,
}
use imapped.Store.Mailboxes.{
  delete_missing_uids, is_missing, is_gone, reset_for_uid_validity_change, forget_uids,
  save_checkpoint, refresh_mailbox_counts, UpsertMailboxParams, upsert_mailbox, insert_or_relist,
  listed_row,
}
use imapped.Store.Steps.{
  Change, apply, apply_all, upserts, updates_flags, claims, attaches, fails, skips, reaps, deletes,
  saves, resets, recounts, lists, unlists,
}
use imapped.Store.Steps.Upserts.{AllSome, upsert_batch-keeps, attach_body-keeps}

-- The row `i`, as a message that the mailbox shows.
abbrev pub is_shown_row : ℕ → ℕ → Entry → Bool
is_shown_row i mailbox_id e = e.id == i && e.mailbox_id == mailbox_id && not (is_gone e.expunged_at)

-- The row `i`, as a message that the mailbox shows and that has no UID upstream.
abbrev pub is_orphan_row : ℕ → ℕ → Entry → Bool
is_orphan_row i mailbox_id e = is_shown_row i mailbox_id e && not (is_some e.upstream_uid)

-- DeleteMailboxesExcept takes the rows of a mailbox with it; nothing else is left out.
abbrev pub keeps_mailboxes : Change → Bool
keeps_mailboxes (unlists account_id keep) = false
keeps_mailboxes _ = true

count-grows :
    {A : Type 0} (p r q : A → Bool) (f : A → A)
    → ((a : A) → p a ≡ true → r (if q a then f a else a) ≡ true)
    → (rows : List A) → count p rows ≤ count r (update_where q f rows)
count-grows p r q f h [] = omega arith
count-grows p r q f h (a ∷ rows) = ground (arith, h a, count-grows p r q f h rows)

module _ (i mailbox_id : ℕ) where
  abbrev orphans : Database → ℕ
  orphans db = count (is_orphan_row i mailbox_id) db.entries

  kept_orphans :
      (q : Entry → Bool) (f : Entry → Entry) (entries : List Entry)
      → ((e : Entry)
          → is_orphan_row i mailbox_id e ≡ true
          → is_orphan_row i mailbox_id (f e) ≡ true)
      → count (is_orphan_row i mailbox_id) entries
        ≤ count (is_orphan_row i mailbox_id) (update_where q f entries)
  kept_orphans q f entries h =
      count-grows (is_orphan_row i mailbox_id) (is_orphan_row i mailbox_id) q f
        (λ e k. elim (Bool-cases (q e)) [ inl t ↦ rw t (h e k) | inr t ↦ rw t k ]) entries

  upsert_entry-orphans :
      (n : ℕ) (meta : MessageMeta) (message_id : ℕ) (db : Database)
      → n ≤ orphans db
      → AllSome (λ r. n ≤ orphans r.1) (upsert_entry meta message_id db)
  unfolding upsert_entry
  upsert_entry-orphans n meta message_id db h =
      elim (Option-cases (head_of (select (has_id meta.mailbox_id) db.mailboxes))) [
        | inl e ↦ rw (e, upsert_entry) tt
        | inr e ↦
            elim (Option-cases
              (head_of (select (holds_uid meta.mailbox_id meta.upstream_uid) db.entries))) [
                | inl k ↦
                    rw (e.1, upsert_entry)
                      (rw k (
                        rw (count-append (is_orphan_row i mailbox_id) db.entries _)
                          (omega (arith, h))))
                | inr k ↦
                    rw (e.1, upsert_entry)
                      (rw k.1 (
                        omega (
                          arith,
                          h,
                          kept_orphans (holds_uid meta.mailbox_id meta.upstream_uid)
                              (λ a. record a {
                                flags = meta.flags;
                                upstream_modseq = nullable_int meta.upstream_modseq;
                              })
                              db.entries (λ a t. t),
                        )))
              ]
      ]

  kept_by_delete :
      (box : ℕ) (present : List ℕ) (entries : List Entry)
      → count (is_orphan_row i mailbox_id) entries
        ≤ count
            (is_orphan_row i mailbox_id)
            (select (λ e. not (e.mailbox_id == box && is_missing present e.upstream_uid)) entries)
  kept_by_delete box present [] = omega arith
  kept_by_delete box present (e ∷ entries) =
      ground (arith, kept_by_delete box present entries, orphan_stays present e.upstream_uid)
    where
      orphan_stays :
          (present : List ℕ) (u : Option ℕ) → is_some u ≡ false → is_missing present u ≡ false
      orphan_stays present none h = refl
      orphan_stays present (some u) h = cc

  listed-orphans :
      (row : Option Mailbox) (params : UpsertMailboxParams) (db : Database)
      → orphans (insert_or_relist row params db).1 ≡ orphans db
  unfolding insert_or_relist
  listed-orphans none params db = refl
  listed-orphans (some b) params db = refl

  apply-orphans :
      (c : Change) (db : Database) → keeps_mailboxes c ≡ true → orphans db ≤ orphans (apply c db)
  unfolding apply update_flags claim_pending_bodies start_fetching mark_body_failed give_up
      mark_body_too_large reap_stale_claims delete_missing_uids save_checkpoint
      reset_for_uid_validity_change forget_uids refresh_mailbox_counts relink record_body store_at
      upsert_mailbox
  apply-orphans (upserts metas) db k =
      upsert_batch-keeps (λ d. orphans db ≤ orphans d) (λ ms n d h. h)
        (upsert_entry-orphans (orphans db)) metas db (omega arith)
  apply-orphans (updates_flags box uid flags modseq) db k =
      kept_orphans (holds_uid box uid)
        (λ a. record a {
          flags = flags;
          upstream_modseq = if modseq == 0 then a.upstream_modseq else some modseq;
        })
        db.entries (λ a t. t)
  apply-orphans (claims locked box limit max_attempts now) db k =
      kept_orphans (λ e. member e.id (claimable_ids locked box limit max_attempts db))
        (start_fetching now) db.entries (λ a t. t)
  apply-orphans (attaches entry_id digest size blob_key) db k =
      attach_body-keeps (λ d. orphans db ≤ orphans d) entry_id size digest blob_key db
        (λ m x h. kept_orphans (λ a. a.id == entry_id) (store_at x) db.entries (λ a t. t))
        (λ m h.
          kept_orphans (λ a. a.id == entry_id) (λ a. store_at a.message_id a) db.entries (λ a t. t))
        (omega arith)
  apply-orphans (fails entry_id message max_attempts) db k =
      kept_orphans (λ a. a.id == entry_id) (give_up message max_attempts) db.entries (λ a t. t)
  apply-orphans (skips entry_id) db k =
      kept_orphans (λ a. a.id == entry_id)
        (λ a. record a { body_state = skipped_too_large; claimed_at = none }) db.entries (λ a t. t)
  apply-orphans (reaps older_than now) db k =
      kept_orphans (is_abandoned older_than now)
        (λ a. record a { body_state = pending; claimed_at = none }) db.entries (λ a t. t)
  apply-orphans (deletes box present) db k = kept_by_delete box present db.entries
  apply-orphans (saves now box c) db k = omega arith
  apply-orphans (resets box uid_validity) db k =
      kept_orphans (λ e. e.mailbox_id == box) forget_uids db.entries (λ a t. ground (arith, t))
  apply-orphans (recounts box) db k = omega arith
  apply-orphans (lists params) db k =
      rw (listed-orphans (listed_row params.account_id params.canonical_name db) params db)
        (omega arith)
  apply-orphans (unlists account_id keep) db k = cc

  apply_all-orphans :
      (cs : List Change) (db : Database)
      → All (λ c. keeps_mailboxes c ≡ true) cs
      → orphans db ≤ orphans (apply_all cs db)
  unfolding apply_all
  apply_all-orphans [] db h = omega arith
  apply_all-orphans (c ∷ cs) db h =
      omega (arith, apply-orphans c db h.0, apply_all-orphans cs (apply c db) h.1)

  reset-orphans :
      (uid_validity : ℕ) (db : Database)
      → count (is_shown_row i mailbox_id) db.entries
        ≤ orphans (reset_for_uid_validity_change mailbox_id uid_validity db)
  unfolding reset_for_uid_validity_change forget_uids
  reset-orphans uid_validity db =
      count-grows (is_shown_row i mailbox_id) (is_orphan_row i mailbox_id)
        (λ e. e.mailbox_id == mailbox_id) forget_uids (λ e h. ground (arith, h)) db.entries

-- After a reset for a new UIDVALIDITY, every row that the mailbox showed before is still there and
-- shown, without an upstream UID, whatever changes to the tables follow in which no mailbox is
-- deleted: new metadata does not adopt the row, and no deletion of vanished UIDs removes it.
pub reset_keeps_old_rows :
    (i mailbox_id uid_validity : ℕ) (cs : List Change) (db : Database)
    → All (λ c. keeps_mailboxes c ≡ true) cs
    → count (is_shown_row i mailbox_id) db.entries
      ≤ count
          (is_orphan_row i mailbox_id)
          (apply_all cs (reset_for_uid_validity_change mailbox_id uid_validity db)).entries
reset_keeps_old_rows i mailbox_id uid_validity cs db h = omega (
  arith,
  reset-orphans i mailbox_id uid_validity db,
  apply_all-orphans i mailbox_id cs (reset_for_uid_validity_change mailbox_id uid_validity db) h,
)
