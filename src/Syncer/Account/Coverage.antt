-- ===== src/Syncer/Account/Coverage.antt =====
-- internal/syncer/engine.go: which mailboxes the loop of syncAccountLocked reaches, and how it
-- counts them.
use imapped.Base.{
  ℕ, suc, ◌+◌, ◌≤◌, ◌≡◌, refl, sym, ◌∙◌, subst, ap, ◌⊎◌, inl, inr, Bool, true, false, not, Option,
  none, some, List, [], ◌∷◌, ◌++◌, map, append_assoc, append-nil, arith, any, count, length, select,
  ◌||◌, Bool-cases, Option-cases,
}
use imapped.Base.Text.{Text}
use imapped.Store.Sql.{is_some}
use imapped.Upstream.Errors.{Error, severity_of, Result-cases}
use imapped.Upstream.Retry.{retry}
use imapped.Upstream.Retry.Keeps.{retry-keeps}
use imapped.Upstream.Session.{is_fatal_account}
use imapped.Syncer.Priority.{MailboxInfo}
use imapped.Syncer.Account.{
  Engine, Account, Totals, Failures, selectable, fold_in, note_failure, verdict, dialing, reconnect,
  sync_boxes, nothing, cannot_continue,
}

-- One visit of a mailbox: its name, and whether it failed.
abbrev pub Visit : Type 0
Visit = Text × Bool

-- `seen` is a record of the visits that the world keeps: each call of sync_mailbox adds its own,
-- and connecting again adds none.
pub record IsLog {C W : Type 0} (engine : Engine C W) (seen : W → List Visit) : Type 0 where
  pub visits :
      (c : C) (a : Account) (box : MailboxInfo) (w : W)
      → let r = engine.sync_mailbox c a box w in seen r.2 ≡ seen w ++ (box.name, is_some r.0) ∷ []
  pub pauses : (n : ℕ) (w : W) → seen (engine.pause n w).1 ≡ seen w
  pub connects : (a : Account) (w : W) → seen (engine.connect a w).1 ≡ seen w
  pub closes : (c : C) (w : W) → seen (engine.close c w) ≡ seen w

abbrev pub went_well : Visit → Bool
went_well v = not v.1

-- What the loop promises of the visits that it makes from a world, when it ends in another one.
pub record Covers (boxes : List MailboxInfo) (before after : List Visit) (synced synced' : ℕ)
    (failed : Bool) : Type 0 where
  pub made : List Visit
  pub logged : after ≡ before ++ made
  pub in_order : map (λ v. v.0) made ≡ map (λ b. b.name) (select selectable boxes)
  pub counted : synced' ≡ synced + count went_well made
  pub progressed : ((failed || any (λ v. v.1) made) ≡ false) ⊎ (1 ≤ synced')

passed_over :
    (box : MailboxInfo) (boxes : List MailboxInfo) (before after : List Visit) (n m : ℕ)
    (failed : Bool)
    → selectable box ≡ false
    → Covers boxes before after n m failed
    → Covers (box ∷ boxes) before after n m failed
passed_over box boxes before after n m failed e k = record {
  made = k.made;
  logged = k.logged;
  in_order = rw e k.in_order;
  counted = k.counted;
  progressed = k.progressed;
}

visited_well :
    (box : MailboxInfo) (boxes : List MailboxInfo) (before after : List Visit) (n m : ℕ)
    (failed : Bool)
    → selectable box ≡ true
    → Covers boxes (before ++ (box.name, false) ∷ []) after (suc n) m failed
    → Covers (box ∷ boxes) before after n m failed
visited_well box boxes before after n m failed e k = record {
  made = (box.name, false) ∷ k.made;
  logged = k.logged ∙ append_assoc before ((box.name, false) ∷ []) k.made;
  in_order = rw e (ap (◌∷◌ box.name) k.in_order);
  counted = omega (arith, k.counted);
  progressed = k.progressed;
}

visited_in_vain :
    (box : MailboxInfo) (boxes : List MailboxInfo) (before after : List Visit) (n m : ℕ)
    (failed : Bool)
    → selectable box ≡ true
    → Covers boxes (before ++ (box.name, true) ∷ []) after n m true
    → Covers (box ∷ boxes) before after n m failed
visited_in_vain box boxes before after n m failed e k = record {
  made = (box.name, true) ∷ k.made;
  logged = k.logged ∙ append_assoc before ((box.name, true) ∷ []) k.made;
  in_order = rw e (ap (◌∷◌ box.name) k.in_order);
  counted = k.counted;
  progressed = elim k.progressed [ inl h ↦ cc | inr h ↦ inr h ];
}

verdict-progressed :
    (total : ℕ) (r : Totals) (f : Option Failures)
    → verdict total r f ≡ none
    → ((is_some f || false) ≡ false) ⊎ (1 ≤ r.mailboxes_synced)
unfolding verdict
verdict-progressed total r none h = inl refl
verdict-progressed total r (some f) h = inr (ground (arith, h))

-- What syncAccountLocked's loop returns.
abbrev Run : Type 0 → Type 0 → Type 0
Run C W = Option Error × Totals × C × W

follows :
    {C W : Type 0} (P : Run C W → Type 0) (run rest : Run C W)
    → run ≡ rest
    → run.0 ≡ none
    → (rest.0 ≡ none → P rest)
    → P run
follows P run rest same h f = subst P (sym same) (f (sym (ap (λ x. x.0) same) ∙ h))

ended_badly :
    {C W : Type 0} (P : Run C W → Type 0) (run : Run C W) (e : Error)
    → run.0 ≡ some e
    → run.0 ≡ none
    → P run
ended_badly P run e same h = let k : some e ≡ none = sym same ∙ h in cc

module _ {C W : Type 0} (engine : Engine C W) (seen : W → List Visit)
    (log : IsLog engine seen) where
  dialing-keeps :
      (account : Account) (x : Option C × W) → seen ((dialing engine account).call x).1.1 ≡ seen x.1
  unfolding dialing
  dialing-keeps account x = elim (Result-cases (engine.connect account x.1).0) [
    | inl e ↦ rw e.1 (log.connects account x.1)
    | inr e ↦ rw e.1 (log.connects account x.1)
  ]

  reconnect-keeps :
      (attempts : ℕ) (account : Account) (old : C) (w : W)
      → seen (reconnect engine attempts account old w).1 ≡ seen w
  unfolding reconnect dialing
  reconnect-keeps attempts account old w = elim (Option-cases (engine.credentials account)) [
    | inr e ↦ rw (e.1, reconnect) (log.closes old w)
    | inl e ↦
        let r = retry (dialing engine account) attempts (none, engine.close old w) in
        let kept : seen r.1.1 ≡ seen w =
          retry-keeps (dialing engine account) (λ x. seen x.1) (dialing-keeps account)
            (λ n x. log.pauses n x.1) attempts (none, engine.close old w)
          ∙ log.closes old w in
        elim (Option-cases r.0) [
          | inr k ↦ rw (e, reconnect) (rw k.1 kept)
          | inl k ↦ elim (Option-cases r.1.0) [
            | inl n ↦ rw (e, reconnect) (rw k (rw n kept))
            | inr n ↦ rw (e, reconnect) (rw k (rw n.1 kept))
          ]
        ]
  ]

  module _ (attempts : ℕ) (account : Account) (total : ℕ) where
    -- What the loop promises from a point on.
    Promise : List MailboxInfo → Type 0
    Promise boxes =
        (c : C) (r : Totals) (f : Option Failures) (w : W)
        → (sync_boxes engine attempts account total boxes c r f w).0 ≡ none
        → let run = sync_boxes engine attempts account total boxes c r f w in
          Covers boxes (seen w) (seen run.3) r.mailboxes_synced run.1.mailboxes_synced (is_some f)

    module _ (box : MailboxInfo) (boxes : List MailboxInfo) (c : C) (r : Totals)
        (f : Option Failures) (w : W)
        (h : (sync_boxes engine attempts account total (box ∷ boxes) c r f w).0 ≡ none)
        (later : Promise boxes) where
      Goal : Run C W → Type 0
      Goal x =
          Covers (box ∷ boxes) (seen w) (seen x.3) r.mailboxes_synced x.1.mailboxes_synced
            (is_some f)

      whole : Run C W
      whole = sync_boxes engine attempts account total (box ∷ boxes) c r f w

      log_of :
          (x : Bool)
          → is_some (engine.sync_mailbox c account box w).0 ≡ x
          → seen (engine.sync_mailbox c account box w).2 ≡ seen w ++ (box.name, x) ∷ []
      log_of x q = log.visits c account box w ∙ ap (λ y. seen w ++ (box.name, y) ∷ []) q

      synced-Covers :
          engine.ctx_err w ≡ none
          → selectable box ≡ true
          → (engine.sync_mailbox c account box w).0 ≡ none
          → Goal whole
      unfolding Goal whole sync_boxes Promise
      synced-Covers e b n =
          let s = engine.sync_mailbox c account box w in
          let t = fold_in s.1 r in
          let u : Totals = record t { mailboxes_synced = suc t.mailboxes_synced } in
          let rest = sync_boxes engine attempts account total boxes c u f s.2 in
          follows Goal whole rest (rw (e, sync_boxes) (rw b (rw n refl))) h (λ k.
            visited_well box boxes (seen w) _ r.mailboxes_synced _ (is_some f) b (
              subst
                (λ x.
                  Covers boxes x (seen rest.3) (suc r.mailboxes_synced) rest.1.mailboxes_synced
                    (is_some f))
                (log_of false (ap is_some n)) (later c u f s.2 k)))

      failed-Covers :
          (x : Error)
          → engine.ctx_err w ≡ none
          → selectable box ≡ true
          → (engine.sync_mailbox c account box w).0 ≡ some x
          → Goal whole
      unfolding Goal whole sync_boxes Promise
      failed-Covers x e b n =
          let s = engine.sync_mailbox c account box w in
          let t = fold_in s.1 r in
          let again = reconnect engine attempts account c s.2 in
          elim (Bool-cases (is_fatal_account (severity_of x))) [
            | inl fatal ↦
                ended_badly Goal whole x (rw (e, sync_boxes) (rw b (rw n (rw fatal refl)))) h
            | inr mild ↦ elim (Result-cases again.0) [
              | inr y ↦
                  ended_badly Goal whole (cannot_continue box.name x y.0)
                    (rw (e, sync_boxes) (rw b (rw n (rw mild (rw y.1 refl))))) h
              | inl y ↦
                  let g = some (note_failure box.name x f) in
                  let rest = sync_boxes engine attempts account total boxes y.0 t g again.1 in
                  follows Goal whole rest (rw (e, sync_boxes) (rw b (rw n (rw mild (rw y.1 refl)))))
                    h
                    (λ k. visited_in_vain box boxes (seen w) _ r.mailboxes_synced _ (is_some f) b (
                      subst
                        (λ z.
                          Covers boxes z (seen rest.3) r.mailboxes_synced rest.1.mailboxes_synced
                            true)
                        (reconnect-keeps attempts account c s.2 ∙ log_of true (ap is_some n))
                        (later y.0 t g again.1 k)))
            ]
          ]

      box-Covers : Goal whole
      unfolding Goal whole sync_boxes Promise
      box-Covers = elim (Option-cases (engine.ctx_err w)) [
        | inr e ↦ ended_badly Goal whole e.0 (rw (e.1, sync_boxes) refl) h
        | inl e ↦ elim (Bool-cases (selectable box)) [
          | inr b ↦
              follows Goal whole (sync_boxes engine attempts account total boxes c r f w)
                (rw (e, sync_boxes) (rw b refl)) h
                (λ k.
                  passed_over box boxes (seen w) _ r.mailboxes_synced _ (is_some f) b
                    (later c r f w k))
          | inl b ↦ elim (Option-cases (engine.sync_mailbox c account box w).0) [
            | inl n ↦ synced-Covers e b n
            | inr n ↦ failed-Covers n.0 e b n.1
          ]
        ]
      ]

    loop-Covers : (boxes : List MailboxInfo) → Promise boxes
    unfolding sync_boxes Goal whole Promise
    loop-Covers [] c r f w h = record {
      made = [];
      logged = sym (append-nil (seen w));
      in_order = refl;
      counted = omega arith;
      progressed = verdict-progressed total r f h;
    }
    loop-Covers (box ∷ boxes) c r f w h = box-Covers box boxes c r f w h (loop-Covers boxes)

-- When the loop over the mailboxes ends with no error, in a world that keeps a log of the calls of
-- sync_mailbox, it has synced or tried to sync every
-- mailbox that can be selected, once each and in the given order, whatever failed in between; it
-- counts as synced those that did not fail; and if any failed, at least one did not.
pub sync_boxes-Covers :
    {C W : Type 0} (engine : Engine C W) (seen : W → List Visit) (log : IsLog engine seen)
    (attempts : ℕ) (account : Account) (boxes : List MailboxInfo) (c : C) (w : W)
    → (sync_boxes engine attempts account (length boxes) boxes c nothing none w).0 ≡ none
    → let run = sync_boxes engine attempts account (length boxes) boxes c nothing none w in
      Covers boxes (seen w) (seen run.3) 0 run.1.mailboxes_synced false
unfolding Promise
sync_boxes-Covers engine seen log attempts account boxes c w h =
    loop-Covers engine seen log attempts account (length boxes) boxes c nothing none w h
