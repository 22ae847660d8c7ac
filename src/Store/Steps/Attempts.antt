-- ===== src/Store/Steps/Attempts.antt =====
-- The number of attempts to download a body.
use imapped.Base.{
  ℕ, ◌<◌, ◌≡◌, inl, inr, Bool, true, ◌||◌, Option, none, some, List, [], ◌∷◌, arith, ◌==◌,
  if◌then◌else◌, select, All, Bool-cases, Option-cases, All-append,
}
use imapped.Base.Text.{Text}
use imapped.Store.Sql.{update_where, member, head_of}
use imapped.Store.Keys.{All-filter}
use imapped.Store.Tables.{pending, skipped_too_large, Entry, Mailbox, Database}
use imapped.Store.Messages.{
  MessageMeta, upsert_entry, update_flags, nullable_int, holds_uid, has_id,
}
use imapped.Store.Bodies.{
  claim_pending_bodies, start_fetching, relink, record_body, store_at, mark_body_failed, give_up,
  mark_body_too_large, reap_stale_claims, is_pending, is_fetching, is_abandoned, claimable_ids,
}
use imapped.Store.Mailboxes.{
  delete_missing_uids, save_checkpoint, reset_for_uid_validity_change, forget_uids,
  refresh_mailbox_counts, upsert_mailbox, insert_or_relist, listed_row, delete_mailboxes_except,
  UpsertMailboxParams,
}
use imapped.Store.Steps.Upserts.{AllSome, upsert_batch-keeps, attach_body-keeps}
use imapped.Store.Steps.Uids.{IsNumbered}
use imapped.Store.Bodies.Claimed.{claimed-IsClaimable}
use imapped.Store.Steps.{
  Change, apply, upserts, updates_flags, claims, attaches, fails, skips, reaps, deletes, saves,
  resets, recounts, lists, unlists,
}

abbrev pub is_waiting_for_body : Entry → Bool
is_waiting_for_body e = is_pending e.body_state || is_fetching e.body_state

abbrev pub HasAttemptsLeft : ℕ → Entry → Type 0
HasAttemptsLeft most e = is_waiting_for_body e ≡ true → e.body_attempts < most

-- No entry still waits for its body after `most` failures.
abbrev pub HasAttempts : ℕ → Database → Type 0
HasAttempts most db = All (HasAttemptsLeft most) db.entries

-- A failure that the change records is counted against this maximum.
abbrev pub IsWithin : ℕ → Change → Type 0
IsWithin most (fails entry_id message max_attempts) = max_attempts ≡ most
IsWithin most _ = Unit

All-update :
    {A : Type 0} (P : A → Type 0) (p : A → Bool) (f : A → A)
    → ((a : A) → P a → p a ≡ true → P (f a))
    → (rows : List A) → All P rows
    → All P (update_where p f rows)
All-update P p f k [] h = tt
All-update P p f k (a ∷ rows) h = elim (Bool-cases (p a)) [
  | inl e ↦ rw e (k a h.0 e, All-update P p f k rows h.1)
  | inr e ↦ rw e (h.0, All-update P p f k rows h.1)
]

marked :
    {A : Type 0} (P : A → Type 0) (p : A → Bool) (f : A → A) {Q : A → Type 0} (rows : List A)
    → All (λ a. p a ≡ true → Q a) rows
    → ((a : A) → Q a → P a → P (f a))
    → All P rows
    → All P (update_where p f rows)
marked P p f [] c k h = tt
marked P p f (a ∷ rows) c k h = elim (Bool-cases (p a)) [
  | inl e ↦ rw e (k a (c.0 e) h.0, marked P p f rows c.1 k h.1)
  | inr e ↦ rw e (h.0, marked P p f rows c.1 k h.1)
]

give_up-HasAttemptsLeft :
    (most : ℕ) (message : Text) (e : Entry) → HasAttemptsLeft most (give_up message most e)
unfolding give_up
give_up-HasAttemptsLeft most message e k = ground (arith, k)

insert_or_relist-HasAttempts :
    (most : ℕ) (row : Option Mailbox) (params : UpsertMailboxParams) (db : Database)
    → HasAttempts most db
    → HasAttempts most (insert_or_relist row params db).1
unfolding insert_or_relist
insert_or_relist-HasAttempts most none params db h = h
insert_or_relist-HasAttempts most (some b) params db h = h

module _ (most : ℕ) (positive : 0 < most) where
  upsert_entry-HasAttempts :
      (meta : MessageMeta) (message_id : ℕ) (db : Database)
      → HasAttempts most db
      → AllSome (λ r. HasAttempts most r.1) (upsert_entry meta message_id db)
  unfolding upsert_entry
  upsert_entry-HasAttempts meta message_id db h =
      elim (Option-cases (head_of (select (has_id meta.mailbox_id) db.mailboxes))) [
        | inl e ↦ rw (e, upsert_entry) tt
        | inr e ↦
            elim (Option-cases
              (head_of (select (holds_uid meta.mailbox_id meta.upstream_uid) db.entries))) [
                | inl k ↦
                    rw (e.1, upsert_entry)
                      (rw k
                        (All-append (HasAttemptsLeft most) db.entries _ h ((λ w. positive), tt)))
                | inr k ↦
                    rw (e.1, upsert_entry)
                      (rw k.1 (
                        All-update (HasAttemptsLeft most)
                          (holds_uid meta.mailbox_id meta.upstream_uid)
                          (λ a. record a {
                            flags = meta.flags;
                            upstream_modseq = nullable_int meta.upstream_modseq;
                          })
                          (λ a r t. r) db.entries h))
              ]
      ]

  -- Every change to the tables keeps this: a message whose body is pending or being fetched has
  -- failed fewer times than the maximum. Asked are a positive maximum, which is the one that the
  -- change counts a failure against, and row ids and UIDs that are numbered as the store numbers
  -- them.
  pub apply-HasAttempts :
      (c : Change) (db : Database)
      → IsWithin most c
      → IsNumbered db
      → HasAttempts most db
      → HasAttempts most (apply c db)
  unfolding apply update_flags claim_pending_bodies start_fetching mark_body_failed
      mark_body_too_large reap_stale_claims delete_missing_uids save_checkpoint
      reset_for_uid_validity_change forget_uids refresh_mailbox_counts relink record_body store_at
      upsert_mailbox delete_mailboxes_except
  apply-HasAttempts (upserts metas) db w u h =
      upsert_batch-keeps (HasAttempts most) (λ ms n d k. k) upsert_entry-HasAttempts metas db h
  apply-HasAttempts (updates_flags mailbox_id uid flags modseq) db w u h =
      All-update (HasAttemptsLeft most) (holds_uid mailbox_id uid)
        (λ a. record a {
          flags = flags;
          upstream_modseq = if modseq == 0 then a.upstream_modseq else some modseq;
        })
        (λ a r t. r) db.entries h
  apply-HasAttempts (claims locked mailbox_id limit max_attempts now) db w u h =
      marked (HasAttemptsLeft most)
        (λ e. member e.id (claimable_ids locked mailbox_id limit max_attempts db))
        (start_fetching now) db.entries
        (claimed-IsClaimable locked mailbox_id limit max_attempts db (λ i. ground (arith, u.0 i)))
        (λ a c k. ground (arith, c, k)) h
  apply-HasAttempts (attaches entry_id digest size blob_key) db w u h =
      attach_body-keeps (HasAttempts most) entry_id size digest blob_key db
        (λ m x k.
          All-update (HasAttemptsLeft most) (λ a. a.id == entry_id) (store_at x)
            (λ a r t. ground arith) db.entries k)
        (λ m k.
          All-update (HasAttemptsLeft most) (λ a. a.id == entry_id) (λ a. store_at a.message_id a)
            (λ a r t. ground arith) db.entries k)
        h
  apply-HasAttempts (fails entry_id message max_attempts) db w u h =
      All-update (HasAttemptsLeft most) (λ a. a.id == entry_id) (give_up message max_attempts)
        (λ a r t. rw w (give_up-HasAttemptsLeft most message a)) db.entries h
  apply-HasAttempts (skips entry_id) db w u h =
      All-update (HasAttemptsLeft most) (λ a. a.id == entry_id)
        (λ a. record a { body_state = skipped_too_large; claimed_at = none })
        (λ a r t. ground arith) db.entries h
  apply-HasAttempts (reaps older_than now) db w u h =
      All-update (HasAttemptsLeft most) (is_abandoned older_than now)
        (λ a. record a { body_state = pending; claimed_at = none }) (λ a r t. ground (arith, r, t))
        db.entries h
  apply-HasAttempts (deletes mailbox_id present) db w u h =
      All-filter (HasAttemptsLeft most) _ db.entries h
  apply-HasAttempts (saves now mailbox_id c) db w u h = h
  apply-HasAttempts (resets mailbox_id uid_validity) db w u h =
      All-update (HasAttemptsLeft most) (λ a. a.mailbox_id == mailbox_id) forget_uids (λ a r t. r)
        db.entries h
  apply-HasAttempts (recounts mailbox_id) db w u h = h
  apply-HasAttempts (lists params) db w u h =
      insert_or_relist-HasAttempts most (listed_row params.account_id params.canonical_name db)
        params db h
  apply-HasAttempts (unlists account_id keep) db w u h =
      All-filter (HasAttemptsLeft most) _ db.entries h
