-- ===== src/Syncer/Account/Tests.antt =====
-- Runs over three mailboxes and a folder, and an instance of the theorem about the loop.
use imapped.Base.{
  ◌≡◌, refl, inl, inr, Bool-cases, true, false, none, some, List, [], ◌∷◌, ◌++◌, if◌then◌else◌,
}
use imapped.Base.Int64
use imapped.Base.Text
use imapped.Base.Text.{Text, codes}
use imapped.Upstream.Errors.{Error, leaf, network, ok, severity_of}
use imapped.Upstream.Retry.{retry}
use imapped.Syncer.Priority.{MailboxInfo}
use imapped.Syncer.Account.{Engine, Account, selectable, nothing, sync_boxes}
use imapped.Syncer.Account.Coverage.{Visit, IsLog, Covers, sync_boxes-Covers}

abbrev box : Text → List Text → MailboxInfo
box name attributes = record { name = name; delimiter = 47; attributes = attributes }

abbrev boxes : List MailboxInfo
boxes =
    box (codes "A") []
    ∷ box (codes "B") []
    ∷ box (codes "F") (codes "\\Noselect" ∷ [])
    ∷ box (codes "C") []
    ∷ []

abbrev down : Error
down = leaf network (codes "reset")

-- The mailbox B fails; the log is the whole world.
abbrev one_fails : Engine Unit (List Visit)
one_fails = record {
  ctx_err = λ w. none;
  pause = λ n w. (true, w);
  get_account = λ w. (ok (record { upstream_host = codes "host"; active = true }), w);
  credentials = λ a. none;
  connect = λ a w. (ok tt, w);
  close = λ c w. w;
  set_capabilities = λ c w. w;
  list_mailboxes = λ c w. (ok boxes, w);
  delete_mailboxes_except = λ keep w. w;
  sync_mailbox = λ c a b w.
      if Text.same b.name (codes "B")
      then (
        some down,
        record { messages_new = 2; bodies_fetched = 1; bytes_fetched = 10 },
        w ++ (b.name, true) ∷ [],
      )
      else (
        none,
        record { messages_new = 1; bodies_fetched = 1; bytes_fetched = 5 },
        w ++ (b.name, false) ∷ [],
      );
}

abbrev account : Account
account = record { upstream_host = codes "host"; active = true }

logs : IsLog one_fails (λ w. w)
logs = record {
  visits = λ c a b w. elim (Bool-cases (Text.same b.name (codes "B"))) [
    | inl e ↦ rw e refl
    | inr e ↦ rw e refl
  ];
  pauses = λ n w. refl;
  connects = λ a w. refl;
  closes = λ c w. refl;
}

ends_well : (sync_boxes one_fails 3 account 4 boxes tt nothing none []).0 ≡ none
unfolding sync_boxes selectable Text.same severity_of retry Int64.lt
ends_well = refl

sync_boxes-Covers_example :
    let run = sync_boxes one_fails 3 account 4 boxes tt nothing none [] in
    Covers boxes [] run.3 0 run.1.mailboxes_synced false
sync_boxes-Covers_example =
    sync_boxes-Covers one_fails (λ w. w) logs 3 account boxes tt [] ends_well

-- The mailbox that failed adds what it managed.
partial_totals : (sync_boxes one_fails 3 account 4 boxes tt nothing none []).1 ≡ record {
  mailboxes_synced = 2;
  messages_new = 4;
  bodies_fetched = 3;
  bytes_fetched = 20;
  skipped = false;
}
unfolding sync_boxes selectable Text.same severity_of retry Int64.lt Int64.add
partial_totals = refl
