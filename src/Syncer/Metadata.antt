-- ===== src/Syncer/Metadata.antt =====
-- internal/syncer/mailbox.go: metadataPass and reconcileDeletions. The server's answers, the context
-- and the errors of the database are parameters; the progress that the interface shows is left out.
pub mod Keeps
pub mod Marks
use imapped.Base.{
  ℕ, zero, suc, ◌+◌, Bool, true, false, ◌&&◌, not, Option, none, some, List, [], ◌∷◌, ◌++◌, map,
  leb, ltb, ◌==◌, if◌then◌else◌, select, is_empty,
}
use imapped.Base.Text
use imapped.Base.Text.{Text, codes}
use imapped.Store.Sql.{member}
use imapped.Store.Tables.{Mailbox, Database}
use imapped.Store.Messages.{MessageMeta, upsert_metadata_batch, update_flags}
use imapped.Store.Mailboxes.{
  Checkpoint, or_zero, save_checkpoint, count_mailbox_messages, existing_upstream_uids,
  delete_missing_uids,
}
use imapped.Upstream.Errors.{Error, leaf, wrap, plain, Result, ok, err}
use imapped.Upstream.Session.{SelectedMailbox}
use imapped.Syncer.NumSets.{NumSets}
use imapped.Syncer.Headers.{Encoding, Fetched, build_meta}
use imapped.Syncer.Planner.Ranges.{uid_range, plan_metadata_chunks}

-- `store_err` is asked before each statement; `fetch_metadata` takes the UIDs, the sequence to ask
-- for changes since, and whether all fields are wanted.
pub record Remote (S W : Type 0) : Type 0 where
  pub ctx_err : W → Option Error
  pub store_err : W → Option Error × W
  pub fetch_metadata : S → ℕ → Bool → W → Result (List Fetched) × W
  pub search_all_uids : W → Result (List ℕ) × W

pub record Settings : Type 0 where
  pub prefer_cond_store : Bool
  pub metadata_batch_messages : ℕ

-- What the pass changes: the tables, the world outside, and its two running totals.
pub record Pass (W : Type 0) : Type 0 where
  pub db : Database
  pub world : W
  pub new_messages : ℕ
  pub highest_seen : ℕ

-- A part of the pass that may end it with an error.
abbrev pub Step : Type 0 → Type 0 → Type 0
Step W A = Pass W → Result A × Pass W

module _ {W : Type 0} where
  unfoldable pub bind : {A B : Type 0} → Step W A → (A → Step W B) → Step W B
  bind s k p = let r = s p in elim r.0 [ ok a ↦ k a r.1 | err e ↦ (err e, r.1) ]

  abbrev pub return : {A : Type 0} → A → Step W A
  return a p = (ok a, p)

abbrev pub no_rows : Error
no_rows = leaf plain (codes "no rows in result set")

module _ (sets : NumSets) {W : Type 0} (remote : Remote sets.Set W) where
  -- A statement or a transaction: it either fails and changes nothing, or commits.
  unfoldable pub statement : {A : Type 0} → (Database → Option (A × Database)) → Step W A
  statement run p =
      let r = remote.store_err p.world in
      let failed = record p { world = r.1 } in
      elim r.0 [
        | some e ↦ (err e, failed)
        | none ↦ elim (run p.db) [
          | none ↦ (err no_rows, failed)
          | some x ↦ (ok x.0, record failed { db = x.1 })
        ]
      ]

  abbrev pub change : (Database → Database) → Step W Unit
  change f = statement λ db. some (tt, f db)

  abbrev pub ask : {A : Type 0} → (W → Result A × W) → Step W A
  ask f p = let r = f p.world in (r.0, record p { world = r.1 })

  abbrev pub check_context : Step W Unit
  check_context p = elim (remote.ctx_err p.world) [ none ↦ (ok tt, p) | some e ↦ (err e, p) ]

  unfoldable pub apply_flags : ℕ → List Fetched → Step W Unit
  unfolding statement bind
  apply_flags mailbox_id [] = return tt
  apply_flags mailbox_id (m ∷ metas) =
      bind (change (update_flags mailbox_id m.uid m.flags m.mod_seq))
        (λ u. apply_flags mailbox_id metas)

  abbrev pub see : ℕ → Step W Unit
  see uid p =
      (ok tt, record p { highest_seen = if ltb p.highest_seen uid then uid else p.highest_seen })

  -- The loop over one chunk's messages: the new ones, for the batch.
  unfoldable pub sort_known :
      Encoding → ℕ → ℕ → List ℕ → Bool → List Fetched → Step W (List MessageMeta)
  unfolding statement bind build_meta
  sort_known encoding account_id mailbox_id known cond_store [] = return []
  sort_known encoding account_id mailbox_id known cond_store (m ∷ metas) =
      let rest = sort_known encoding account_id mailbox_id known cond_store metas in
      bind (see m.uid) (λ u.
        if member m.uid known
        then if cond_store
          then rest
          else bind (change (update_flags mailbox_id m.uid m.flags m.mod_seq)) (λ v. rest)
        else bind rest (λ batch. return (build_meta encoding account_id mailbox_id m ∷ batch)))

  abbrev pub count_new : ℕ → Step W Unit
  count_new created p = (ok tt, record p { new_messages = p.new_messages + created })

  -- `fmt.Errorf("recording metadata chunk %d: %w", ...)`
  unfoldable pub wrap_err : {A : Type 0} → Text → Step W A → Step W A
  wrap_err text s p =
      let r = s p in elim r.0 [ ok a ↦ (ok a, r.1) | err e ↦ (err (wrap text e []), r.1) ]

  abbrev pub checkpoint_at : SelectedMailbox → Bool → ℕ → Checkpoint
  checkpoint_at selected done highest_seen = record {
    uid_validity = selected.uid_validity;
    uid_next = selected.uid_next;
    highest_mod_seq = selected.highest_mod_seq;
    metadata_synced_through_uid = highest_seen;
    full_scan_completed = done;
  }

  unfoldable pub save : ℕ → ℕ → SelectedMailbox → Bool → Step W Unit
  unfolding statement
  save now mailbox_id selected done p =
      change (save_checkpoint now mailbox_id (checkpoint_at selected done p.highest_seen)) p

  -- An empty batch opens no transaction.
  unfoldable pub record_batch : List MessageMeta → Step W ℕ
  unfolding statement
  record_batch batch = if is_empty batch then return 0 else statement (upsert_metadata_batch batch)

  unfoldable pub fetch_chunk :
      Encoding → ℕ → ℕ → Mailbox → SelectedMailbox → List ℕ → Bool → ℕ → sets.Set → Step W Unit
  unfolding bind sort_known record_batch wrap_err save
  fetch_chunk encoding now account_id mailbox selected known cond_store i chunk =
      bind check_context (λ u. bind (ask (remote.fetch_metadata chunk 0 true)) (λ metas.
        bind (sort_known encoding account_id mailbox.id known cond_store metas) (λ batch.
          bind
            (wrap_err (codes "recording metadata chunk " ++ (Text.decimal (suc i) ++ codes ": "))
              (record_batch batch))
            (λ created. bind (count_new created) (λ v. save now mailbox.id selected false)))))

  unfoldable pub fetch_chunks :
      Encoding → ℕ → ℕ → Mailbox → SelectedMailbox → List ℕ → Bool → ℕ → List sets.Set → Step W Unit
  unfolding bind fetch_chunk
  fetch_chunks encoding now account_id mailbox selected known cond_store i [] = return tt
  fetch_chunks encoding now account_id mailbox selected known cond_store i (chunk ∷ chunks) =
      bind (fetch_chunk encoding now account_id mailbox selected known cond_store i chunk)
        (λ u. fetch_chunks encoding now account_id mailbox selected known cond_store (suc i) chunks)

  abbrev pub look : {A : Type 0} → (Database → A) → Step W A
  look f = statement λ db. some (f db, db)

  unfoldable pub reconcile_deletions : ℕ → SelectedMailbox → Step W Unit
  unfolding bind statement
  reconcile_deletions mailbox_id selected =
      bind (look (count_mailbox_messages mailbox_id)) (λ local.
        if local == selected.num_messages
        then return tt
        else bind (ask remote.search_all_uids) (λ uids.
          bind (statement (λ db. some (delete_missing_uids mailbox_id uids db)))
            (λ removed. return tt)))

  -- Its errors are only logged.
  unfoldable pub try : Step W Unit → Step W Unit
  try s p = (ok tt, (s p).1)

  -- Everything after the test for an unchanged mailbox.
  unfoldable pub enumerate :
      Encoding → Settings → ℕ → ℕ → Mailbox → SelectedMailbox → Bool → Step W Unit
  unfolding bind statement apply_flags fetch_chunks reconcile_deletions try save
  enumerate encoding settings now account_id mailbox selected cond_store =
      let stored = or_zero mailbox.highest_mod_seq in
      bind
        (if cond_store && ltb 0 stored
          then bind (ask (remote.fetch_metadata (uid_range sets 1) stored false))
              (apply_flags mailbox.id)
          else return tt)
        (λ u. bind (ask remote.search_all_uids) (λ all.
          bind (look (existing_upstream_uids mailbox.id)) (λ known.
            let pending = select (λ uid. not (member uid known && cond_store)) all in
            bind
              (fetch_chunks encoding now account_id mailbox selected known cond_store 0
                (plan_metadata_chunks sets pending settings.metadata_batch_messages))
              (λ v.
                bind (try (reconcile_deletions mailbox.id selected))
                  (λ w. save now mailbox.id selected true)))))

  unfoldable pub uses_cond_store : Settings → Bool → SelectedMailbox → Bool
  uses_cond_store settings has_cond_store selected =
      settings.prefer_cond_store && has_cond_store && ltb 0 selected.highest_mod_seq

  unfoldable pub looks_unchanged : Mailbox → SelectedMailbox → Bool
  looks_unchanged mailbox selected =
      or_zero mailbox.highest_mod_seq == selected.highest_mod_seq
      && or_zero mailbox.uid_next == selected.uid_next
      && ltb 0 mailbox.metadata_synced_through_uid

  unfoldable pub enumerate_if_changed :
      Encoding → Settings → ℕ → Bool → ℕ → Mailbox → SelectedMailbox → Step W Unit
  unfolding bind statement enumerate uses_cond_store looks_unchanged
  enumerate_if_changed encoding settings now has_cond_store account_id mailbox selected =
      let cond_store = uses_cond_store settings has_cond_store selected in
      let rest = enumerate encoding settings now account_id mailbox selected cond_store in
      if cond_store && looks_unchanged mailbox selected
      then bind (look (count_mailbox_messages mailbox.id))
          (λ local. if leb selected.num_messages local then return tt else rest)
      else rest

  -- metadataPass: the new messages are counted in the pass, also when it ends with an error.
  unfoldable pub metadata_pass :
      Encoding
      → Settings
      → ℕ
      → Bool
      → ℕ
      → Mailbox
      → SelectedMailbox
      → Database
      → W
      → Result Unit × Pass W
  unfolding enumerate_if_changed
  metadata_pass encoding settings now has_cond_store account_id mailbox selected db w =
      enumerate_if_changed encoding settings now has_cond_store account_id mailbox selected
        (record {
          db = db;
          world = w;
          new_messages = 0;
          highest_seen = mailbox.metadata_synced_through_uid;
        })
