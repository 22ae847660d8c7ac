-- ===== src/Syncer/Bodies/Frames.antt =====
-- What fetchBatch of internal/syncer/mailbox.go leaves alone.
use imapped.Base.{
  ℕ, ◌≡◌, refl, ◌∙◌, subst, inl, inr, false, Option, none, some, List, [], ◌∷◌, ◌==◌, arith, select,
  Bool-cases, Option-cases,
}
use imapped.Base.Text.{Text}
use imapped.Store.Sql.{select-update, update_where, head_of}
use imapped.Store.Tables.{skipped_too_large, Entry, Database}
use imapped.Store.Bodies.{
  attach_body, relink, record_body, is_duplicate, give_up, mark_body_failed, mark_body_too_large,
  message_id_for_mailbox_message,
}
use imapped.Store.Steps.Upserts.{AllSome}
use imapped.Upstream.Errors.{Error, error_text, has_cause, is_too_large, Result-cases}
use imapped.Upstream.Bodies.{Literal, Line, Left}
use imapped.Upstream.Bodies.Keeps.{fetch_bodies-keeps, All-Names}
use imapped.Syncer.NumSets.{NumSets}
use imapped.Syncer.Planner.{SizedUid}
use imapped.Syncer.Planner.Ranges.{uid_set}
use imapped.Syncer.Claims.{PendingBody, ClaimKey, ClaimTable, find, take_claim}
use imapped.Syncer.Claims.Traces.{take_claim_lem}
use imapped.Syncer.Bodies.{
  Storage, Batch, and_then, statement, mark_failed, mark_too_large, parse_and_count, parse_stored,
  store_body, handle_body, park, release, after_fetch, fetch_batch,
}

-- No claim of the table is for the row.
abbrev pub Unnamed : ℕ → ClaimTable → Type 0
Unnamed i t =
    (k : ClaimKey) (c : PendingBody) → find k t ≡ some c → (c.mailbox_message_id == i) ≡ false

abbrev pub rows_of : ℕ → Database → List Entry
rows_of i db = select (λ e. e.id == i) db.entries

update_other :
    (i k : ℕ) (f : Entry → Entry) (rows : List Entry)
    → (k == i) ≡ false
    → ((e : Entry) → (f e).id ≡ e.id)
    → select (λ e. e.id == i) (update_where (λ e. e.id == k) f rows) ≡ select (λ e. e.id == i) rows
update_other i k f rows h g =
    select-update (λ e. e.id == i) (λ e. e.id == k) f
      (λ e q. (ground (arith, q, h), ground (arith, q, h, g e))) rows

attach_body-rows :
    (i k : ℕ) (digest : List ℕ) (size : ℕ) (blob_key : Text) (db : Database)
    → (k == i) ≡ false
    → AllSome (λ r. rows_of i r ≡ rows_of i db) (attach_body k digest size blob_key db)
unfolding relink record_body attach_body
attach_body-rows i k digest size blob_key db h =
    elim (Option-cases (head_of (select (λ e. e.id == k) db.entries))) [
      | inl n ↦ rw (n, attach_body) tt
      | inr e ↦ elim (Option-cases (head_of (select (λ m. m.id == e.0.message_id) db.messages))) [
        | inl n ↦ rw (e.1, attach_body) (rw n tt)
        | inr m ↦
            elim (Option-cases
              (head_of (select (is_duplicate m.0.account_id digest m.0.id) db.messages))) [
                | inl n ↦
                    rw (e.1, attach_body)
                      (rw m.1 (rw n (update_other i k _ db.entries h λ e. refl)))
                | inr n ↦
                    rw (e.1, attach_body)
                      (rw m.1 (rw n.1 (update_other i k _ db.entries h λ e. refl)))
              ]
      ]
    ]

module _ (i : ℕ) (rows : List Entry) where
  abbrev Kept : Batch → Type 0
  Kept s = Unnamed i s.claims × (rows_of i s.db ≡ rows)

  abbrev IsOther : PendingBody → Type 0
  IsOther c = (c.mailbox_message_id == i) ≡ false

  taken-Kept :
      (mailbox_id uid : ℕ) (s : Batch)
      → Kept s
      → Kept (record s { claims = (take_claim mailbox_id uid s.claims).1 })
        × ((c : PendingBody) → (take_claim mailbox_id uid s.claims).0 ≡ some c → IsOther c)
  taken-Kept mailbox_id uid s h = (
    (λ k c e. h.0 k c (ground (arith, (take_claim_lem mailbox_id uid k s.claims).1, e)), h.1),
    λ c e.
        h.0 (record { mailbox_id = mailbox_id; uid = uid }) c
          (ground (
            arith,
            (take_claim_lem mailbox_id uid (record { mailbox_id = mailbox_id; uid = uid })
                s.claims).0,
            e,
          )),
  )

  module _ {W : Type 0} (storage : Storage W) where
    statement-Kept :
        (run : Database → Option Database) (s : Batch) (w : W)
        → AllSome (λ db. rows_of i db ≡ rows_of i s.db) (run s.db)
        → Kept s
        → Kept (statement storage run s w).1
    unfolding statement
    statement-Kept run s w k h = elim (Option-cases (storage.store_err w).0) [
      | inr e ↦ rw (e.1, statement) h
      | inl e ↦ elim (Option-cases (run s.db)) [
        | inl n ↦ rw (e, statement) (rw n h)
        | inr n ↦ rw (e, statement) (rw n.1 (h.0, committed n.0 n.1))
      ]
    ]
      where
        committed : (db : Database) → run s.db ≡ some db → rows_of i db ≡ rows
        committed db e = subst (AllSome λ db. rows_of i db ≡ rows_of i s.db) e k ∙ h.1

    mark_failed-Kept :
        (max_attempts : ℕ) (c : PendingBody) (e : Error) (s : Batch) (w : W)
        → IsOther c
        → Kept s
        → Kept (mark_failed storage max_attempts c e s w).1
    unfolding mark_failed mark_body_failed give_up
    mark_failed-Kept max_attempts c e s w o h =
        statement-Kept
          (λ db. some (mark_body_failed c.mailbox_message_id (error_text e) max_attempts db)) s w
          (update_other i c.mailbox_message_id (give_up (error_text e) max_attempts) s.db.entries o
            λ r. refl)
          h

    mark_too_large-Kept :
        (c : PendingBody) (s : Batch) (w : W)
        → IsOther c
        → Kept s
        → Kept (mark_too_large storage c s w).1
    unfolding mark_too_large mark_body_too_large
    mark_too_large-Kept c s w o h =
        statement-Kept (λ db. some (mark_body_too_large c.mailbox_message_id db)) s w
          (update_other i c.mailbox_message_id
            (λ r. record r { body_state = skipped_too_large; claimed_at = none }) s.db.entries o
            λ r. refl)
          h

    and_then-Kept :
        (r : Left Batch W) (k : Batch → W → Left Batch W)
        → Kept r.1
        → ((s : Batch) (w : W) → Kept s → Kept (k s w).1)
        → Kept (and_then r k).1
    unfolding and_then
    and_then-Kept (none, s, w) k h f = f s w h
    and_then-Kept (some e, s, w) k h f = h

    parse_stored-Kept :
        (c : PendingBody) (raw : List ℕ) (size : ℕ) (s : Batch) (w : W)
        → Kept s
        → Kept (parse_stored storage c raw size s w).1
    unfolding parse_stored parse_and_count
    parse_stored-Kept c raw size s w h = elim (Option-cases (storage.store_err w).0) [
      | inr e ↦ rw (e.1, parse_stored) h
      | inl e ↦ elim (Option-cases (message_id_for_mailbox_message c.mailbox_message_id s.db)) [
        | inl n ↦ rw (e, parse_stored) (rw n h)
        | inr n ↦ rw (e, parse_stored) (rw n.1 h)
      ]
    ]

    store_body-Kept :
        (max_attempts : ℕ) (c : PendingBody) (raw : List ℕ) (s : Batch) (w : W)
        → IsOther c
        → Kept s
        → Kept (store_body storage max_attempts c raw s w).1
    unfolding store_body
    store_body-Kept max_attempts c raw s w o h = elim (Result-cases (storage.put raw w).0) [
      | inr e ↦
          rw (e.1, store_body) (mark_failed-Kept max_attempts c e.0 s (storage.put raw w).1 o h)
      | inl e ↦
          let attach = attach_body c.mailbox_message_id e.0.sha256 e.0.size e.0.key in
          rw (e.1, store_body)
            (and_then-Kept (statement storage attach s (storage.put raw w).1)
              (parse_stored storage c raw e.0.size)
              (statement-Kept attach s (storage.put raw w).1
                (attach_body-rows i c.mailbox_message_id e.0.sha256 e.0.size e.0.key s.db o) h)
              (parse_stored-Kept c raw e.0.size))
    ]

    handle_body-Kept :
        (max_attempts mailbox_id uid : ℕ) (body : Literal) (s : Batch) (w : W)
        → Kept s
        → Kept (handle_body storage max_attempts mailbox_id uid body s w).1
    unfolding handle_body
    handle_body-Kept max_attempts mailbox_id uid body s w h =
        let (k, o) = taken-Kept mailbox_id uid s h in
        elim (Option-cases (take_claim mailbox_id uid s.claims).0) [
          | inl n ↦ rw (n, handle_body) h
          | inr n ↦ elim (Result-cases body.content) [
            | inl e ↦
                rw (n.1, handle_body)
                  (rw e.1 (store_body-Kept max_attempts n.0 e.0 _ w (o n.0 n.1) k))
            | inr e ↦
                rw (n.1, handle_body)
                  (rw e.1 (mark_failed-Kept max_attempts n.0 e.0 _ w (o n.0 n.1) k))
          ]
        ]

    park-Kept :
        (mailbox_id : ℕ) (batch : List SizedUid) (s : Batch) (w : W)
        → Kept s
        → Kept (park storage mailbox_id batch s w).1
    unfolding park
    park-Kept mailbox_id [] s w h = h
    park-Kept mailbox_id (msg ∷ batch) s w h =
        let (k, o) = taken-Kept mailbox_id msg.uid s h in
        elim (Option-cases (take_claim mailbox_id msg.uid s.claims).0) [
          | inl n ↦ rw (n, park) (park-Kept mailbox_id batch s w h)
          | inr n ↦
              rw (n.1, park)
                (and_then-Kept _ _ (mark_too_large-Kept n.0 _ w (o n.0 n.1) k)
                  (λ t v. park-Kept mailbox_id batch t v))
        ]

    release-Kept :
        (max_attempts mailbox_id : ℕ) (e : Error) (batch : List SizedUid) (s : Batch) (w : W)
        → Kept s
        → Kept (release storage max_attempts mailbox_id e batch s w).0
    unfolding release
    release-Kept max_attempts mailbox_id e [] s w h = h
    release-Kept max_attempts mailbox_id e (msg ∷ batch) s w h =
        let (k, o) = taken-Kept mailbox_id msg.uid s h in
        elim (Option-cases (take_claim mailbox_id msg.uid s.claims).0) [
          | inl n ↦ rw (n, release) (release-Kept max_attempts mailbox_id e batch s w h)
          | inr n ↦
              rw (n.1, release)
                (release-Kept max_attempts mailbox_id e batch _ _
                  (mark_failed-Kept max_attempts n.0 e _ w (o n.0 n.1) k))
        ]

    after_fetch-Kept :
        (max_attempts mailbox_id : ℕ) (batch : List SizedUid) (r : Left Batch W)
        → Kept r.1
        → Kept (after_fetch storage max_attempts mailbox_id batch r).1
    unfolding after_fetch
    after_fetch-Kept max_attempts mailbox_id batch (none, s, w) h = h
    after_fetch-Kept max_attempts mailbox_id batch (some e, s, w) h =
        elim (Bool-cases (has_cause is_too_large e)) [
          | inl k ↦ rw (k, after_fetch) (park-Kept mailbox_id batch s w h)
          | inr k ↦ rw (k, after_fetch) (release-Kept max_attempts mailbox_id e batch s w h)
        ]

    pub fetch_batch-Kept :
        (sets : NumSets) (line : Line sets.Set W) (max_size max_attempts mailbox_id : ℕ)
        (batch : List SizedUid) (s : Batch) (w : W)
        → Kept s
        → Kept (fetch_batch storage sets line max_size max_attempts mailbox_id batch s w).1
    unfolding fetch_batch
    fetch_batch-Kept sets line max_size max_attempts mailbox_id batch s w h =
        after_fetch-Kept max_attempts mailbox_id batch _ (
          fetch_bodies-keeps max_size (handle_body storage max_attempts mailbox_id) (λ u. Unit) Kept
            (λ uid body t v q k. handle_body-Kept max_attempts mailbox_id uid body t v k) tt line
            (uid_set sets batch) s w (All-Names (λ u. tt) (line.fetch (uid_set sets batch) w).0) h)

-- A batch, whether it fails or not, leaves every row of a mailbox as it was that no claim of the
-- table is for when it starts.
pub fetch_batch-rows :
    {W : Type 0} (storage : Storage W) (sets : NumSets) (line : Line sets.Set W)
    (max_size max_attempts mailbox_id : ℕ) (batch : List SizedUid) (s : Batch) (w : W) (i : ℕ)
    → Unnamed i s.claims
    → rows_of i (fetch_batch storage sets line max_size max_attempts mailbox_id batch s w).1.db
      ≡ rows_of i s.db
fetch_batch-rows storage sets line max_size max_attempts mailbox_id batch s w i h =
    (fetch_batch-Kept i (rows_of i s.db) storage sets line max_size max_attempts mailbox_id batch s
      w (h, refl)).1
