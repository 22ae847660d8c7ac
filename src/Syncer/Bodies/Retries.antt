-- ===== src/Syncer/Bodies/Retries.antt =====
-- What is left for a second attempt at a batch by fetchBatch of internal/syncer/mailbox.go.
use imapped.Base.{
  ℕ, ◌≡◌, refl, ◌∙◌, sym, subst, inl, inr, true, false, none, some, List, [], ◌∷◌, ◌==◌, arith, any,
  All, All-imp, Bool-cases, Option-cases,
}
use imapped.Upstream.Errors.{Error, has_cause, is_too_large}
use imapped.Upstream.Bodies.{Literal, Line, Left, fetch_bodies}
use imapped.Upstream.Bodies.Keeps.{Names, Names-imp, fetch_bodies-keeps}
use imapped.Syncer.NumSets.{NumSets}
use imapped.Syncer.Planner.{SizedUid}
use imapped.Syncer.Planner.Ranges.{uid_set}
use imapped.Syncer.Claims.{PendingBody, ClaimTable, same_key, find, take_claim}
use imapped.Syncer.Claims.Traces.{take_claim_lem}
use imapped.Syncer.Bodies.{
  Storage, Batch, statement, mark_failed, handle_body, park, release, after_fetch, fetch_batch,
}

-- A UID of the mailbox has no claim.
abbrev pub Vacant : ℕ → ClaimTable → ℕ → Type 0
Vacant mailbox_id t u = find (record { mailbox_id = mailbox_id; uid = u }) t ≡ none

taken-Vacant :
    (mailbox_id uid u : ℕ) (t : ClaimTable)
    → Vacant mailbox_id t u
    → Vacant mailbox_id (take_claim mailbox_id uid t).1 u
taken-Vacant mailbox_id uid u t h =
    ground
      (arith, (take_claim_lem mailbox_id uid (record { mailbox_id = mailbox_id; uid = u }) t).1, h)

taken_now-Vacant :
    (mailbox_id uid : ℕ) (t : ClaimTable) → Vacant mailbox_id (take_claim mailbox_id uid t).1 uid
unfolding same_key
taken_now-Vacant mailbox_id uid t =
    ground
      (arith, (take_claim_lem mailbox_id uid (record { mailbox_id = mailbox_id; uid = uid }) t).1)

not_taken :
    (mailbox_id uid : ℕ) (t : ClaimTable)
    → Vacant mailbox_id t uid
    → (take_claim mailbox_id uid t).0 ≡ none
not_taken mailbox_id uid t h =
    (take_claim_lem mailbox_id uid (record { mailbox_id = mailbox_id; uid = uid }) t).0 ∙ h

module _ {W : Type 0} (storage : Storage W) (max_attempts mailbox_id : ℕ) where
  mark_failed-claims :
      (c : PendingBody) (e : Error) (s : Batch) (w : W)
      → (mark_failed storage max_attempts c e s w).1.claims ≡ s.claims
  unfolding mark_failed statement
  mark_failed-claims c e s w = elim (Option-cases (storage.store_err w).0) [
    | inl k ↦ rw (k, statement) refl
    | inr k ↦ rw (k.1, statement) refl
  ]

  release-Vacant :
      (e : Error) (batch : List SizedUid) (u : ℕ) (s : Batch) (w : W)
      → Vacant mailbox_id s.claims u
      → Vacant mailbox_id (release storage max_attempts mailbox_id e batch s w).0.claims u
  unfolding release
  release-Vacant e [] u s w h = h
  release-Vacant e (msg ∷ batch) u s w h =
      elim (Option-cases (take_claim mailbox_id msg.uid s.claims).0) [
        | inl n ↦ rw (n, release) (release-Vacant e batch u s w h)
        | inr n ↦
            rw (n.1, release)
              (release-Vacant e batch u _ _ (
                rw
                  (mark_failed-claims n.0 e
                    (record s { claims = (take_claim mailbox_id msg.uid s.claims).1 }) w)
                  (taken-Vacant mailbox_id msg.uid u s.claims h)))
      ]

  released :
      (e : Error) (batch : List SizedUid) (s : Batch) (w : W)
      → All
          (λ msg.
            Vacant mailbox_id
              (release storage max_attempts mailbox_id e batch s w).0.claims
              msg.uid)
          batch
  unfolding release
  released e [] s w = tt
  released e (msg ∷ batch) s w = elim (Option-cases (take_claim mailbox_id msg.uid s.claims).0) [
    | inl n ↦
        let same : release storage max_attempts mailbox_id e (msg ∷ batch) s w
            ≡ release storage max_attempts mailbox_id e batch s w =
          rw (n, release) refl in
        subst (λ r. All (λ m. Vacant mailbox_id r.0.claims m.uid) (msg ∷ batch)) (sym same)
          (
            release-Vacant e batch msg.uid s w (
                sym
                  (take_claim_lem mailbox_id msg.uid
                    (record { mailbox_id = mailbox_id; uid = msg.uid }) s.claims).0
                ∙ n),
            released e batch s w,
          )
    | inr n ↦
        let t : Batch = record s { claims = (take_claim mailbox_id msg.uid s.claims).1 } in
        let r = mark_failed storage max_attempts n.0 e t w in
        let same : release storage max_attempts mailbox_id e (msg ∷ batch) s w
            ≡ release storage max_attempts mailbox_id e batch r.1 r.2 =
          rw (n.1, release) refl in
        subst (λ r. All (λ m. Vacant mailbox_id r.0.claims m.uid) (msg ∷ batch)) (sym same)
          (
            release-Vacant e batch msg.uid r.1 r.2
                (rw (mark_failed-claims n.0 e t w) (taken_now-Vacant mailbox_id msg.uid s.claims)),
            released e batch r.1 r.2,
          )
  ]

  handle_body-quiet :
      (uid : ℕ) (body : Literal) (s : Batch) (w : W)
      → Vacant mailbox_id s.claims uid
      → (handle_body storage max_attempts mailbox_id uid body s w).1 ≡ s
  unfolding handle_body
  handle_body-quiet uid body s w h = rw (not_taken mailbox_id uid s.claims h, handle_body) refl

  park-quiet :
      (batch : List SizedUid) (s : Batch) (w : W)
      → All (λ msg. Vacant mailbox_id s.claims msg.uid) batch
      → (park storage mailbox_id batch s w).1 ≡ s
  unfolding park
  park-quiet [] s w h = refl
  park-quiet (msg ∷ batch) s w h =
      rw (not_taken mailbox_id msg.uid s.claims h.0, park) (park-quiet batch s w h.1)

  release-quiet :
      (e : Error) (batch : List SizedUid) (s : Batch) (w : W)
      → All (λ msg. Vacant mailbox_id s.claims msg.uid) batch
      → (release storage max_attempts mailbox_id e batch s w).0 ≡ s
  unfolding release
  release-quiet e [] s w h = refl
  release-quiet e (msg ∷ batch) s w h =
      rw (not_taken mailbox_id msg.uid s.claims h.0, release) (release-quiet e batch s w h.1)

  after_fetch-quiet :
      (batch : List SizedUid) (r : Left Batch W)
      → All (λ msg. Vacant mailbox_id r.1.claims msg.uid) batch
      → (after_fetch storage max_attempts mailbox_id batch r).1 ≡ r.1
  unfolding after_fetch
  after_fetch-quiet batch (none, s, w) h = refl
  after_fetch-quiet batch (some e, s, w) h = elim (Bool-cases (has_cause is_too_large e)) [
    | inl k ↦ rw (k, after_fetch) (park-quiet batch s w h)
    | inr k ↦ rw (k, after_fetch) (release-quiet e batch s w h)
  ]

  module _ (sets : NumSets) (line : Line sets.Set W) (max_size : ℕ) (batch : List SizedUid) where
    fetch_batch-quiet :
        (s : Batch) (w : W)
        → All (λ msg. Vacant mailbox_id s.claims msg.uid) batch
        → Vacant mailbox_id s.claims 0
        → All (All (Names (Vacant mailbox_id s.claims))) (line.fetch (uid_set sets batch) w).0
        → (fetch_batch storage sets line max_size max_attempts mailbox_id batch s w).1 ≡ s
    unfolding fetch_batch
    fetch_batch-quiet s w h z n =
        let same =
          fetch_bodies-keeps max_size (handle_body storage max_attempts mailbox_id)
            (Vacant mailbox_id s.claims) (λ t. t ≡ s)
            (λ uid body t v q e. handle_body-quiet uid body t v (rw e q) ∙ e) z line
            (uid_set sets batch) s w n refl in
        after_fetch-quiet batch _ (rw same h) ∙ same

    vacated :
        (u : ℕ) (t : ClaimTable) (msgs : List SizedUid)
        → All (λ msg. Vacant mailbox_id t msg.uid) msgs
        → any (λ msg. msg.uid == u) msgs ≡ true
        → Vacant mailbox_id t u
    vacated u t [] h k = cc
    vacated u t (msg ∷ msgs) h k = elim (Bool-cases (msg.uid == u)) [
      | inl e ↦ ground (arith, e, h.0)
      | inr e ↦ vacated u t msgs h.1 (ground (arith, e, k))
    ]

    failed_vacates :
        (s : Batch) (w : W) (e : Error)
        → (fetch_bodies max_size
            (handle_body storage max_attempts mailbox_id)
            line
            (uid_set sets batch)
            s
            w).0
          ≡ some e
        → has_cause is_too_large e ≡ false
        → All
            (λ msg.
              Vacant mailbox_id
                (fetch_batch storage sets line max_size max_attempts mailbox_id batch s w).1.claims
                msg.uid)
            batch
    unfolding fetch_batch after_fetch
    failed_vacates s w e h k =
        let r =
          fetch_bodies max_size (handle_body storage max_attempts mailbox_id) line
            (uid_set sets batch) s w in
        rw (h, after_fetch) (rw k (released e batch r.1 r.2))

-- No message of the batch has been claimed again between two states of the claims.
abbrev pub IsUnclaimed : ℕ → List SizedUid → ClaimTable → ClaimTable → Type 0
IsUnclaimed mailbox_id batch t t' =
    All
      (λ msg.
        find (record { mailbox_id = mailbox_id; uid = msg.uid }) t'
        ≡ find (record { mailbox_id = mailbox_id; uid = msg.uid }) t)
      batch

still-Vacant :
    (mailbox_id : ℕ) (t t' : ClaimTable) (batch : List SizedUid)
    → IsUnclaimed mailbox_id batch t t'
    → All (λ msg. Vacant mailbox_id t msg.uid) batch
    → All (λ msg. Vacant mailbox_id t' msg.uid) batch
still-Vacant mailbox_id t t' [] k h = tt
still-Vacant mailbox_id t t' (msg ∷ batch) k h =
    (k.0 ∙ h.0, still-Vacant mailbox_id t t' batch k.1 h.1)

-- When a batch's download fails, with no message too large, and none of its messages is claimed again
-- before the second attempt, whatever else happens to the tables and to other claims meanwhile, the
-- second attempt changes neither the tables nor the claims nor the totals, whatever the server answers
-- for UIDs of the batch: the first attempt has used up every claim. UID zero has no claim.
pub retry-quiet :
    {W : Type 0} (storage : Storage W) (sets : NumSets) (line : Line sets.Set W)
    (max_size max_attempts mailbox_id : ℕ) (batch : List SizedUid) (s t : Batch) (w v : W)
    (e : Error)
    → (fetch_bodies max_size
        (handle_body storage max_attempts mailbox_id)
        line
        (uid_set sets batch)
        s
        w).0
      ≡ some e
    → has_cause is_too_large e ≡ false
    → IsUnclaimed mailbox_id batch
        (fetch_batch storage sets line max_size max_attempts mailbox_id batch s w).1.claims
        t.claims
    → All
        (All (Names λ u. any (λ msg. msg.uid == u) batch ≡ true))
        (line.fetch (uid_set sets batch) v).0
    → Vacant mailbox_id t.claims 0
    → (fetch_batch storage sets line max_size max_attempts mailbox_id batch t v).1 ≡ t
retry-quiet storage sets line max_size max_attempts mailbox_id batch s t w v e h k after n z =
    let vacant : All (λ m. Vacant mailbox_id t.claims m.uid) batch =
      still-Vacant mailbox_id _ t.claims batch after
        (failed_vacates storage max_attempts mailbox_id sets line max_size batch s w e h k) in
    fetch_batch-quiet storage max_attempts mailbox_id sets line max_size batch t v vacant z (
      All-imp _ _
        (All-imp _ _ (
          Names-imp λ u q.
            vacated storage max_attempts mailbox_id sets line max_size batch u t.claims batch vacant
              q))
        (line.fetch (uid_set sets batch) v).0 n)
