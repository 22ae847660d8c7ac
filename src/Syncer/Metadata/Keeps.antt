-- ===== src/Syncer/Metadata/Keeps.antt =====
-- What each part of a metadata pass does to the marks that say a mailbox is up to date, its UIDNEXT
-- and its modification sequence.
use imapped.Base.{
  ℕ, suc, ◌≡◌, refl, ◌∙◌, inl, inr, Bool, true, false, Option, List, [], ◌∷◌, map, if◌then◌else◌,
  select, Bool-cases, Option-cases,
}
use imapped.Store.Sql.{update_where, head_of}
use imapped.Store.Tables.{Mailbox, Database}
use imapped.Store.Messages.{MessageMeta, upsert_entry, has_id, holds_uid, allocate_uid}
use imapped.Store.Steps.Upserts.{AllSome}
use imapped.Upstream.Errors.{Error, err, Result-cases}
use imapped.Syncer.Metadata.{Pass, Step, bind, return}

abbrev pub mark_of : Mailbox → Option ℕ × Option ℕ
mark_of b = (b.uid_next, b.highest_mod_seq)

-- The marks of all mailboxes.
abbrev pub marks : Database → List (Option ℕ × Option ℕ)
marks db = map mark_of db.mailboxes

pub marks-update :
    (p : Mailbox → Bool) (f : Mailbox → Mailbox)
    → ((b : Mailbox) → mark_of (f b) ≡ mark_of b)
    → (mailboxes : List Mailbox) → map mark_of (update_where p f mailboxes) ≡ map mark_of mailboxes
marks-update p f h [] = refl
marks-update p f h (b ∷ mailboxes) = elim (Bool-cases (p b)) [
  | inl e ↦ rw e (rw (h b) (rw (marks-update p f h mailboxes) refl))
  | inr e ↦ rw e (rw (marks-update p f h mailboxes) refl)
]

abbrev pub HasMarks : List (Option ℕ × Option ℕ) → Database → Type 0
HasMarks m db = marks db ≡ m

pub upsert_entry-HasMarks :
    (m : List (Option ℕ × Option ℕ)) (meta : MessageMeta) (message_id : ℕ) (db : Database)
    → HasMarks m db
    → AllSome (λ r. HasMarks m r.1) (upsert_entry meta message_id db)
unfolding upsert_entry allocate_uid
upsert_entry-HasMarks m meta message_id db h =
    let moved =
      marks-update (has_id meta.mailbox_id)
        (λ b. record b { local_uid_next = suc b.local_uid_next }) (λ b. refl) db.mailboxes
      ∙ h in
    elim (Option-cases (head_of (select (has_id meta.mailbox_id) db.mailboxes))) [
      | inl e ↦ rw (e, upsert_entry) tt
      | inr e ↦
          elim (Option-cases
            (head_of (select (holds_uid meta.mailbox_id meta.upstream_uid) db.entries))) [
              | inl k ↦ rw (e.1, upsert_entry) (rw k moved)
              | inr k ↦ rw (e.1, upsert_entry) (rw k.1 moved)
            ]
    ]

module _ {W : Type 0} where
  unfoldable pub Keeps : {A : Type 0} → Step W A → Type 0
  Keeps s = (p : Pass W) → marks (s p).1.db ≡ marks p.db

  pub bind-Keeps :
      {A B : Type 0} (s : Step W A) (k : A → Step W B)
      → Keeps s
      → ((a : A) → Keeps (k a))
      → Keeps (bind s k)
  unfolding bind Keeps
  bind-Keeps s k h l p = elim (Result-cases (s p).0) [
    | inl e ↦ rw (e.1, bind) (l e.0 (s p).1 ∙ h p)
    | inr e ↦ rw (e.1, bind) (h p)
  ]

  -- A step that changes the marks only when it succeeds.
  unfoldable pub KeepsOnErr : {A : Type 0} → Step W A → Type 0
  KeepsOnErr s = (p : Pass W) (e : Error) → (s p).0 ≡ err e → marks (s p).1.db ≡ marks p.db

  pub Keeps-KeepsOnErr : {A : Type 0} (s : Step W A) → Keeps s → KeepsOnErr s
  unfolding Keeps KeepsOnErr
  Keeps-KeepsOnErr s h p e k = h p

  pub bind-KeepsOnErr :
      {A B : Type 0} (s : Step W A) (k : A → Step W B)
      → Keeps s
      → ((a : A) → KeepsOnErr (k a))
      → KeepsOnErr (bind s k)
  unfolding bind Keeps KeepsOnErr
  bind-KeepsOnErr s k h l p e = elim (Result-cases (s p).0) [
    | inl a ↦ rw (a.1, bind) (λ m. l a.0 (s p).1 e m ∙ h p)
    | inr a ↦ rw (a.1, bind) (λ m. h p)
  ]

  pub if-KeepsOnErr :
      {A : Type 0} (c : Bool) (s t : Step W A)
      → KeepsOnErr s
      → KeepsOnErr t
      → KeepsOnErr (if c then s else t)
  if-KeepsOnErr true s t h l = h
  if-KeepsOnErr false s t h l = l

  pub if-Keeps :
      {A : Type 0} (c : Bool) (s t : Step W A) → Keeps s → Keeps t → Keeps (if c then s else t)
  if-Keeps true s t h l = h
  if-Keeps false s t h l = l

pub return-Keeps : {A : Type 0} (W : Type 0) (a : A) → Keeps {W = W} (return a)
unfolding Keeps
return-Keeps W a p = refl
