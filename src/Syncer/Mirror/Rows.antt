-- ===== src/Syncer/Mirror/Rows.antt =====
-- The rows that the work on a mailbox runs over.
use mathlib.Core.Option.{some-injective}
use imapped.Base.{
  ℕ, ◌≡◌, refl, ap, Bool, true, false, not, Option, none, some, List, [], ◌∷◌, select, ◌⊎◌, inl,
  inr, arith, ◌==◌, Bool-cases, Option-cases, count, ◌&&◌, sym, ◌∙◌, ==_iff,
}
use imapped.Base.Text
use imapped.Store.Sql.{update_where, head_of, is_some}
use imapped.Store.Tables.{Mailbox, Entry, Database}
use imapped.Store.Mailboxes.{
  upsert_mailbox, get_mailbox, reset_for_uid_validity_change, restart_scan, forget_uids,
}
use imapped.Store.Mailboxes.Listed.{upsert_mailbox-shared}
use imapped.Store.Messages.{has_id}
use imapped.Upstream.Errors.{Result, ok, err}
use imapped.Upstream.Session.{SelectedMailbox}
use imapped.Syncer.Priority.{MailboxInfo}
use imapped.Syncer.Mirror.{Mirror, mailbox_params, is_renumbered, current_row}

-- Mailboxes of one account whose names differ in nothing but case share a row: listing the second
-- one returns the row of the first.
pub same_row :
    (account_id : ℕ) (a b : MailboxInfo) (db : Database)
    → Text.to_lower b.name ≡ Text.to_lower a.name
    → (upsert_mailbox
        (mailbox_params account_id b)
        (upsert_mailbox (mailbox_params account_id a) db).1).0.id
      ≡ (upsert_mailbox (mailbox_params account_id a) db).0.id
unfolding mailbox_params
same_row account_id a b db h =
    upsert_mailbox-shared (mailbox_params account_id a) (mailbox_params account_id b) db refl h

-- The entries of a mailbox that have a UID upstream.
abbrev pub known_uids : ℕ → Database → ℕ
known_uids mailbox_id db =
    count (λ e. e.mailbox_id == mailbox_id && is_some e.upstream_uid) db.entries

-- A row that was reset: it has the server's UIDVALIDITY, its scan starts over, and no entry of the
-- mailbox has a UID upstream.
abbrev pub IsRestarted : SelectedMailbox → Mailbox → Database → Type 0
IsRestarted selected m db =
    (m.uid_validity ≡ some selected.uid_validity)
    × (m.metadata_synced_through_uid ≡ 0)
    × (known_uids m.id db ≡ 0)

-- The row that was listed, with the server's UIDVALIDITY or none, or one that was reset.
abbrev pub Fits : {W : Type 0} → Mailbox → SelectedMailbox → Result Mailbox × Database × W → Type 0
Fits mailbox selected (err e, db, w) = Unit
Fits mailbox selected (ok m, db, w) =
    ((m ≡ mailbox) × ((m.uid_validity ≡ none) ⊎ (m.uid_validity ≡ some selected.uid_validity)))
    ⊎ IsRestarted selected m db

kept_row :
    (v : Option ℕ) (selected : SelectedMailbox)
    → elim v [ none ↦ false | some u ↦ not (u == selected.uid_validity) ] ≡ false
    → (v ≡ none) ⊎ (v ≡ some selected.uid_validity)
kept_row none selected h = inl refl
kept_row (some u) selected h = inr (ground arith)

-- The first row that passes a test behind an UPDATE of the rows that pass it.
updated_row :
    (h : Mailbox → Bool) (f : Mailbox → Mailbox) (rows : List Mailbox) (m : Mailbox)
    → ((r : Mailbox) → h (f r) ≡ h r)
    → head_of (select h (update_where h f rows)) ≡ some m
    → (r : Mailbox) × (m ≡ f r)
updated_row h f [] m same e = cc
updated_row h f (a ∷ rows) m same e = elim (Bool-cases (h a)) [
  | inl t ↦ (a, ground (arith, t, e, same a))
  | inr t ↦ updated_row h f rows m same (ground (arith, t, e, same a))
]

head-has_id :
    (id : ℕ) (rows : List Mailbox) (m : Mailbox)
    → head_of (select (has_id id) rows) ≡ some m
    → m.id ≡ id
head-has_id id [] m h = cc
head-has_id id (a ∷ rows) m h = elim (Bool-cases (a.id == id)) [
  | inl t ↦
      let first : head_of (select (has_id id) (a ∷ rows)) ≡ some a = rw t refl in
      ap (λ (b : Mailbox). b.id) (some-injective m a (sym h ∙ first)) ∙ (==_iff a.id id).0 t
  | inr t ↦ head-has_id id rows m (ground (arith, t, h))
]

forgotten :
    (mailbox_id : ℕ) (entries : List Entry)
    → count
        (λ e. e.mailbox_id == mailbox_id && is_some e.upstream_uid)
        (update_where (λ e. e.mailbox_id == mailbox_id) forget_uids entries)
      ≡ 0
unfolding forget_uids
forgotten mailbox_id [] = refl
forgotten mailbox_id (e ∷ entries) = ground (arith, forgotten mailbox_id entries)

reset_row :
    (selected : SelectedMailbox) (mailbox_id : ℕ) (db : Database) (m : Mailbox)
    → get_mailbox mailbox_id (reset_for_uid_validity_change mailbox_id selected.uid_validity db)
      ≡ some m
    → IsRestarted selected m (reset_for_uid_validity_change mailbox_id selected.uid_validity db)
unfolding get_mailbox reset_for_uid_validity_change restart_scan
reset_row selected mailbox_id db m e =
    let f = restart_scan selected.uid_validity in
    let row = updated_row (has_id mailbox_id) f db.mailboxes m (λ r. refl) e in
    let same = head-has_id mailbox_id (update_where (has_id mailbox_id) f db.mailboxes) m e in
    (
      ap (λ (b : Mailbox). b.uid_validity) row.1,
      ap (λ (b : Mailbox). b.metadata_synced_through_uid) row.1,
      rw same (forgotten mailbox_id db.entries),
    )

module _ {C W : Type 0} (mirror : Mirror C W) where
  renumbered_Fits :
      (mailbox : Mailbox) (selected : SelectedMailbox) (db : Database) (w : W)
      → is_renumbered mirror mailbox selected ≡ true
      → Fits mailbox selected (current_row mirror mailbox selected db w)
  unfolding current_row
  renumbered_Fits mailbox selected db w h = elim (Option-cases (mirror.store_err w).0) [
    | inr (e, x) ↦ rw (h, current_row) (rw x tt)
    | inl x ↦ elim (Option-cases (mirror.store_err (mirror.store_err w).1).0) [
      | inr (e, y) ↦ rw (h, current_row) (rw (x, y) tt)
      | inl y ↦
          let v = selected.uid_validity in
          elim (Option-cases
            (get_mailbox mailbox.id (reset_for_uid_validity_change mailbox.id v db))) [
              | inl z ↦ rw (h, current_row) (rw (x, y, z) tt)
              | inr (m, z) ↦
                  rw (h, current_row) (rw (x, y, z) (inr (reset_row selected mailbox.id db m z)))
            ]
    ]
  ]

  -- No pass runs over UIDs that the server is known to have renumbered. The row that the passes get
  -- is the listed one, when that has the UIDVALIDITY that SELECT has reported or has none because no
  -- checkpoint has been saved, or it is a row that was reset: then it has the reported UIDVALIDITY,
  -- its scan starts over, and no entry of the mailbox has an upstream UID.
  pub current_row-Fits :
      (mailbox : Mailbox) (selected : SelectedMailbox) (db : Database) (w : W)
      → Fits mailbox selected (current_row mirror mailbox selected db w)
  unfolding current_row is_renumbered
  current_row-Fits mailbox selected db w =
      elim (Bool-cases (is_renumbered mirror mailbox selected)) [
        | inl h ↦ renumbered_Fits mailbox selected db w h
        | inr h ↦ rw (h, current_row) (inl (refl, kept_row mailbox.uid_validity selected h))
      ]
