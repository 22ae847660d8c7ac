-- ===== src/Syncer/Metadata/Marks.antt =====
-- When a metadata pass moves the marks that say a mailbox is up to date: its UIDNEXT and its
-- modification sequence.
use imapped.Base.{
  ℕ, suc, ◌≡◌, refl, subst, inl, inr, Bool, true, false, ◌&&◌, not, Option, some, List, [], ◌∷◌,
  ◌++◌, is_empty, ltb, leb, ◌==◌, select, Option-cases,
}
use imapped.Base.Text
use imapped.Base.Text.{Text, codes}
use imapped.Store.Sql.{member}
use imapped.Store.Tables.{Mailbox, Database}
use imapped.Store.Messages.{MessageMeta, upsert_metadata_batch, update_flags, has_id}
use imapped.Store.Mailboxes.{
  save_checkpoint, advance_scan, delete_missing_uids, existing_upstream_uids,
  count_mailbox_messages, or_zero,
}
use imapped.Store.Steps.Upserts.{AllSome, upsert_all-keeps}
use imapped.Upstream.Errors.{Error, Result, err, Result-cases}
use imapped.Upstream.Session.{SelectedMailbox}
use imapped.Syncer.NumSets.{NumSets}
use imapped.Syncer.Headers.{Encoding, Fetched, build_meta}
use imapped.Syncer.Planner.Ranges.{uid_range, plan_metadata_chunks}
use imapped.Syncer.Metadata.{
  Remote, Settings, Step, statement, change, ask, look, check_context, apply_flags, see, sort_known,
  record_batch, count_new, wrap_err, save, checkpoint_at, fetch_chunk, fetch_chunks,
  reconcile_deletions, try, enumerate, uses_cond_store, looks_unchanged, enumerate_if_changed,
  metadata_pass,
}
use imapped.Syncer.Metadata.Keeps.{
  marks, HasMarks, Keeps, KeepsOnErr, upsert_entry-HasMarks, marks-update, bind-Keeps,
  Keeps-KeepsOnErr, bind-KeepsOnErr, if-KeepsOnErr, if-Keeps, return-Keeps,
}

module _ (sets : NumSets) {W : Type 0} (remote : Remote sets.Set W) where
  statement-Keeps :
      {A : Type 0} (run : Database → Option (A × Database))
      → ((db : Database) → AllSome (λ r. HasMarks (marks db) r.1) (run db))
      → Keeps (statement sets remote run)
  unfolding statement Keeps
  statement-Keeps run h p = elim (Option-cases (remote.store_err p.world).0) [
    | inl e ↦ elim (Option-cases (run p.db)) [
      | inl k ↦ rw (e, statement) (rw k refl)
      | inr k ↦ rw (e, statement) (rw k.1 (kept k.0 k.1))
    ]
    | inr e ↦ rw (e.1, statement) refl
  ]
    where
      kept : (r : _ × Database) → run p.db ≡ some r → marks r.1 ≡ marks p.db
      kept r k = subst (AllSome (λ r. HasMarks (marks p.db) r.1)) k (h p.db)

  ask-Keeps : {A : Type 0} (f : W → Result A × W) → Keeps (ask sets remote f)
  unfolding Keeps
  ask-Keeps f p = refl

  see-Keeps : (uid : ℕ) → Keeps (see sets remote uid)
  unfolding Keeps
  see-Keeps uid p = refl

  count_new-Keeps : (created : ℕ) → Keeps (count_new sets remote created)
  unfolding Keeps
  count_new-Keeps created p = refl

  check_context-Keeps : Keeps (check_context sets remote)
  unfolding Keeps
  check_context-Keeps p = elim (Option-cases (remote.ctx_err p.world)) [
    | inl e ↦ rw (e, check_context) refl
    | inr e ↦ rw (e.1, check_context) refl
  ]

  batch-HasMarks :
      (metas : List MessageMeta) (db : Database)
      → AllSome (λ r. HasMarks (marks db) r.1) (upsert_metadata_batch metas db)
  unfolding upsert_metadata_batch
  batch-HasMarks metas db =
      upsert_all-keeps (HasMarks (marks db)) (λ ms n d k. k) (upsert_entry-HasMarks (marks db))
        metas 0 db refl

  flags-Keeps :
      (mailbox_id : ℕ) (m : Fetched)
      → Keeps (change sets remote (update_flags mailbox_id m.uid m.flags m.mod_seq))
  unfolding update_flags
  flags-Keeps mailbox_id m =
      statement-Keeps (λ db. some (tt, update_flags mailbox_id m.uid m.flags m.mod_seq db))
        (λ db. refl)

  record_batch-Keeps : (batch : List MessageMeta) → Keeps (record_batch sets remote batch)
  unfolding record_batch
  record_batch-Keeps batch =
      if-Keeps (is_empty batch) _ _ (return-Keeps W 0)
        (statement-Keeps (upsert_metadata_batch batch) (batch-HasMarks batch))

  apply_flags-Keeps :
      (mailbox_id : ℕ) (metas : List Fetched) → Keeps (apply_flags sets remote mailbox_id metas)
  unfolding apply_flags
  apply_flags-Keeps mailbox_id [] = return-Keeps W tt
  apply_flags-Keeps mailbox_id (m ∷ metas) =
      bind-Keeps (change sets remote (update_flags mailbox_id m.uid m.flags m.mod_seq)) _
        (flags-Keeps mailbox_id m) (λ u. apply_flags-Keeps mailbox_id metas)

  sort_known-Keeps :
      (encoding : Encoding) (account_id mailbox_id : ℕ) (known : List ℕ) (cond_store : Bool)
      (metas : List Fetched)
      → Keeps (sort_known sets remote encoding account_id mailbox_id known cond_store metas)
  unfolding sort_known
  sort_known-Keeps encoding account_id mailbox_id known cond_store [] = return-Keeps W []
  sort_known-Keeps encoding account_id mailbox_id known cond_store (m ∷ metas) =
      let rest = sort_known-Keeps encoding account_id mailbox_id known cond_store metas in
      bind-Keeps (see sets remote m.uid) _ (see-Keeps m.uid) (λ u.
        if-Keeps (member m.uid known) _ _
          (if-Keeps cond_store _ _ rest (
            bind-Keeps (change sets remote (update_flags mailbox_id m.uid m.flags m.mod_seq)) _
              (flags-Keeps mailbox_id m) (λ v. rest)))
          (bind-Keeps (sort_known sets remote encoding account_id mailbox_id known cond_store metas)
            _ rest (λ b. return-Keeps W (build_meta encoding account_id mailbox_id m ∷ b))))

  wrap_err-Keeps :
      {A : Type 0} (text : Text) (s : Step W A) → Keeps s → Keeps (wrap_err sets remote text s)
  unfolding wrap_err Keeps
  wrap_err-Keeps text s h p = elim (Result-cases (s p).0) [
    | inl e ↦ rw (e.1, wrap_err) (h p)
    | inr e ↦ rw (e.1, wrap_err) (h p)
  ]

  save-Keeps :
      (now mailbox_id : ℕ) (selected : SelectedMailbox)
      → Keeps (save sets remote now mailbox_id selected false)
  unfolding save save_checkpoint advance_scan Keeps
  save-Keeps now mailbox_id selected p =
      statement-Keeps
        (λ db. some (
          tt,
          save_checkpoint now mailbox_id (checkpoint_at sets remote selected false p.highest_seen)
              db,
        ))
        (λ db.
          marks-update (has_id mailbox_id)
            (advance_scan (checkpoint_at sets remote selected false p.highest_seen)) (λ b. refl)
            db.mailboxes)
        p

  fetch_chunk-Keeps :
      (encoding : Encoding) (now account_id : ℕ) (mailbox : Mailbox) (selected : SelectedMailbox)
      (known : List ℕ) (cond_store : Bool) (i : ℕ) (chunk : sets.Set)
      → Keeps (
          fetch_chunk sets remote encoding now account_id mailbox selected known cond_store i chunk)
  unfolding fetch_chunk
  fetch_chunk-Keeps encoding now account_id mailbox selected known cond_store i chunk =
      bind-Keeps (check_context sets remote) _ check_context-Keeps (λ u.
        bind-Keeps (ask sets remote (remote.fetch_metadata chunk 0 true)) _
          (ask-Keeps (remote.fetch_metadata chunk 0 true))
          (λ metas.
            bind-Keeps
              (sort_known sets remote encoding account_id mailbox.id known cond_store metas) _
              (sort_known-Keeps encoding account_id mailbox.id known cond_store metas)
              (λ batch.
                bind-Keeps
                  (wrap_err sets remote
                    (codes "recording metadata chunk " ++ (Text.decimal (suc i) ++ codes ": "))
                    (record_batch sets remote batch))
                  _ (wrap_err-Keeps _ (record_batch sets remote batch) (record_batch-Keeps batch))
                  (λ created.
                    bind-Keeps (count_new sets remote created) _ (count_new-Keeps created)
                      (λ v. save-Keeps now mailbox.id selected)))))

  fetch_chunks-Keeps :
      (encoding : Encoding) (now account_id : ℕ) (mailbox : Mailbox) (selected : SelectedMailbox)
      (known : List ℕ) (cond_store : Bool) (i : ℕ) (chunks : List sets.Set)
      → Keeps (
          fetch_chunks sets remote encoding now account_id mailbox selected known cond_store i
            chunks)
  unfolding fetch_chunks
  fetch_chunks-Keeps encoding now account_id mailbox selected known cond_store i [] =
      return-Keeps W tt
  fetch_chunks-Keeps encoding now account_id mailbox selected known cond_store i (chunk ∷ chunks) =
      bind-Keeps
        (fetch_chunk sets remote encoding now account_id mailbox selected known cond_store i chunk)
        _ (fetch_chunk-Keeps encoding now account_id mailbox selected known cond_store i chunk)
        (λ u.
          fetch_chunks-Keeps encoding now account_id mailbox selected known cond_store (suc i)
            chunks)

  look-Keeps : {A : Type 0} (f : Database → A) → Keeps (look sets remote f)
  look-Keeps f = statement-Keeps (λ db. some (f db, db)) (λ db. refl)

  reconcile_deletions-Keeps :
      (mailbox_id : ℕ) (selected : SelectedMailbox)
      → Keeps (reconcile_deletions sets remote mailbox_id selected)
  unfolding reconcile_deletions delete_missing_uids
  reconcile_deletions-Keeps mailbox_id selected =
      bind-Keeps (look sets remote (count_mailbox_messages mailbox_id)) _
        (look-Keeps (count_mailbox_messages mailbox_id))
        (λ local. if-Keeps (local == selected.num_messages) _ _ (return-Keeps W tt) (
          bind-Keeps (ask sets remote remote.search_all_uids) _ (ask-Keeps remote.search_all_uids)
            (λ uids.
              bind-Keeps
                (statement sets remote (λ db. some (delete_missing_uids mailbox_id uids db))) _
                (statement-Keeps (λ db. some (delete_missing_uids mailbox_id uids db)) (λ db. refl))
                (λ removed. return-Keeps W tt))))

  try-Keeps : (s : Step W Unit) → Keeps s → Keeps (try sets remote s)
  unfolding try Keeps
  try-Keeps s h p = h p

  statement-KeepsOnErr :
      {A : Type 0} (run : Database → Option (A × Database)) → KeepsOnErr (statement sets remote run)
  unfolding statement KeepsOnErr
  statement-KeepsOnErr run p e = elim (Option-cases (remote.store_err p.world).0) [
    | inl k ↦ elim (Option-cases (run p.db)) [
      | inl l ↦ rw (k, statement) (rw l (λ m. refl))
      | inr l ↦ rw (k, statement) (rw l.1 (λ m. cc))
    ]
    | inr k ↦ rw (k.1, statement) (λ m. refl)
  ]

  save-KeepsOnErr :
      (now mailbox_id : ℕ) (selected : SelectedMailbox) (done : Bool)
      → KeepsOnErr (save sets remote now mailbox_id selected done)
  unfolding save KeepsOnErr
  save-KeepsOnErr now mailbox_id selected done p e h =
      statement-KeepsOnErr
        (λ db. some (
          tt,
          save_checkpoint now mailbox_id (checkpoint_at sets remote selected done p.highest_seen)
              db,
        ))
        p e h

  enumerate-KeepsOnErr :
      (encoding : Encoding) (settings : Settings) (now account_id : ℕ) (mailbox : Mailbox)
      (selected : SelectedMailbox) (cond_store : Bool)
      → KeepsOnErr
          (enumerate sets remote encoding settings now account_id mailbox selected cond_store)
  unfolding enumerate
  enumerate-KeepsOnErr encoding settings now account_id mailbox selected cond_store =
      bind-KeepsOnErr _ _
        (if-Keeps (cond_store && ltb 0 (or_zero mailbox.highest_mod_seq)) _ _
          (bind-Keeps
            (ask sets remote
              (remote.fetch_metadata (uid_range sets 1) (or_zero mailbox.highest_mod_seq) false))
            (apply_flags sets remote mailbox.id)
            (ask-Keeps
              (remote.fetch_metadata (uid_range sets 1) (or_zero mailbox.highest_mod_seq) false))
            (apply_flags-Keeps mailbox.id))
          (return-Keeps W tt))
        (λ u.
          bind-KeepsOnErr (ask sets remote remote.search_all_uids) _
            (ask-Keeps remote.search_all_uids)
            (λ all.
              bind-KeepsOnErr (look sets remote (existing_upstream_uids mailbox.id)) _
                (look-Keeps (existing_upstream_uids mailbox.id))
                (λ known.
                  bind-KeepsOnErr _ _
                    (fetch_chunks-Keeps encoding now account_id mailbox selected known cond_store 0
                      (plan_metadata_chunks sets
                        (select (λ uid. not (member uid known && cond_store)) all)
                        settings.metadata_batch_messages))
                    (λ v.
                      bind-KeepsOnErr
                        (try sets remote (reconcile_deletions sets remote mailbox.id selected)) _
                        (try-Keeps (reconcile_deletions sets remote mailbox.id selected)
                          (reconcile_deletions-Keeps mailbox.id selected))
                        (λ w. save-KeepsOnErr now mailbox.id selected true)))))

  enumerate_if_changed-KeepsOnErr :
      (encoding : Encoding) (settings : Settings) (now : ℕ) (has_cond_store : Bool) (account_id : ℕ)
      (mailbox : Mailbox) (selected : SelectedMailbox)
      → KeepsOnErr (
          enumerate_if_changed sets remote encoding settings now has_cond_store account_id mailbox
            selected)
  unfolding enumerate_if_changed
  enumerate_if_changed-KeepsOnErr encoding settings now has_cond_store account_id mailbox selected =
      let cond_store = uses_cond_store sets remote settings has_cond_store selected in
      let rest =
        enumerate-KeepsOnErr encoding settings now account_id mailbox selected cond_store in
      if-KeepsOnErr (cond_store && looks_unchanged sets remote mailbox selected) _ _
        (bind-KeepsOnErr (look sets remote (count_mailbox_messages mailbox.id)) _
          (look-Keeps (count_mailbox_messages mailbox.id))
          (λ local.
            if-KeepsOnErr (leb selected.num_messages local) _ _
              (Keeps-KeepsOnErr _ (return-Keeps W tt)) rest))
        rest

  -- A metadata pass that ends with any error, of the context, the server or a statement, after
  -- any number of committed chunks, leaves the UIDNEXT and the modification sequence of every
  -- mailbox as they were.
  pub metadata_pass-marks :
      (encoding : Encoding) (settings : Settings) (now : ℕ) (has_cond_store : Bool) (account_id : ℕ)
      (mailbox : Mailbox) (selected : SelectedMailbox) (db : Database) (w : W) (e : Error)
      → (metadata_pass sets remote encoding settings now has_cond_store account_id mailbox selected
          db w).0
        ≡ err e
      → marks
          (metadata_pass sets remote encoding settings now has_cond_store account_id mailbox
            selected db w).1.db
        ≡ marks db
  unfolding metadata_pass KeepsOnErr
  metadata_pass-marks encoding settings now has_cond_store account_id mailbox selected db w e =
      enumerate_if_changed-KeepsOnErr encoding settings now has_cond_store account_id mailbox
        selected _ e
