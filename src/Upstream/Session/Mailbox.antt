-- ===== src/Upstream/Session/Mailbox.antt =====
-- The mailbox that a command finds open.
use imapped.Base.{
  ℕ, zero, suc, ◌+◌, ◌≡◌, refl, sym, ap, subst, ◌⊎◌, inl, inr, Bool, false, Option, none, some, [],
  arith, Bool-cases, Option-cases, is_empty, is_empty-nil,
}
use imapped.Base.Text.{Text}
use imapped.Upstream.Errors.{Error, Result, ok, err, Result-cases, severity_of}
use imapped.Upstream.Session.{
  Server, Session, SelectedMailbox, Out, discard, reopen, dial, ensure_connected, Round, returns,
  retries, run_command, settle, connected, round, do_loop, do_command, is_fatal_account,
  recoverable,
}

module _ {C W : Type 0} (server : Server C W) where
  open server use {ctx_err, pause, connect, select, close, poisoned}

  discard-client :
      (s : Session C) (w : W)
      → ((discard server s w).0.client ≡ none) × ((discard server s w).0.selected ≡ s.selected)
  unfolding discard
  discard-client s w = ground arith

  -- `opened c w` is the mailbox that the client has open on the server's side.
  module _ (opened : C → W → Option Text)
      (select_opens : (c : C) (name : Text) (ro : Bool) (w : W) (d : SelectedMailbox)
        → (select c name ro w).0 ≡ ok d
        → opened c (select c name ro w).1 ≡ some name) where
    abbrev pub HasOpen : Text → C → W → Type 0
    HasOpen name c w = (name ≡ []) ⊎ (opened c w ≡ some name)

    -- A client that the session would use again has the mailbox open that the session remembers.
    abbrev pub InStep : Session C → W → Type 0
    InStep s w = (c : C) → s.client ≡ some c → poisoned c w ≡ false → HasOpen s.selected c w

    -- A session that has a client has one with the remembered mailbox open; one that has not
    -- dials before the next command.
    data Connected (name : Text) : Out server C → Type 0 where
      live :
          {c : C} {s : Session C} {w : W}
          → s.client ≡ some c
          → s.selected ≡ name
          → HasOpen name c w
          → Connected name (ok c, s, w)
      down :
          {e : Error} {s : Session C} {w : W}
          → s.client ≡ none
          → s.selected ≡ name
          → Connected name (err e, s, w)

    reopen-Connected :
        (c : C) (s : Session C) (w : W)
        → s.client ≡ none
        → Connected s.selected (reopen server c s w)
    unfolding reopen
    reopen-Connected c s w h = elim (Bool-cases (is_empty s.selected)) [
      | inl none_open ↦
          rw (none_open, reopen) (live refl refl (inl (is_empty-nil s.selected none_open)))
      | inr some_open ↦ elim (Result-cases (select c s.selected s.read_only w).0) [
        | inl (d, e) ↦
            rw (some_open, e, reopen)
              (live refl refl (inr (select_opens c s.selected s.read_only w d e)))
        | inr (f, e) ↦ rw (some_open, e, reopen) (down h refl)
      ]
    ]

    dial-Connected :
        (s : Session C) (w : W) → s.client ≡ none → Connected s.selected (dial server s w)
    unfolding dial
    dial-Connected s w h = elim (Result-cases (connect w).0) [
      | inl (c, e) ↦ rw (e, dial) (reopen-Connected c s (connect w).1 h)
      | inr (f, e) ↦ rw (e, dial) (down h refl)
    ]

    ensure-Connected :
        (s : Session C) (w : W) → InStep s w → Connected s.selected (ensure_connected server s w)
    unfolding ensure_connected
    ensure-Connected s w v = elim (Option-cases s.client) [
      | inl e ↦ rw (e, ensure_connected) (dial-Connected s w e)
      | inr (c, e) ↦ elim (Bool-cases (poisoned c w)) [
        | inl bad ↦
            let (gone, same) = discard-client s w in
            rw (e, bad, ensure_connected)
              (rw same at (dial-Connected (discard server s w).0 (discard server s w).1 gone))
        | inr good ↦ rw (e, good, ensure_connected) (live e refl (v c e good))
      ]
    ]

    -- What an attempt leaves behind: no client where another attempt follows.
    data Leaves {A : Type 0} (name : Text) : Round C W A → Type 0 where
      done : {r : Result A} {s : Session C} {w : W} → Leaves name (returns r s w)
      redial :
          {e : Error} {s : Session C} {w : W}
          → s.client ≡ none
          → s.selected ≡ name
          → Leaves name (retries e s w)

    settle-Leaves :
        {A : Type 0} (s : Session C) (o : Result A × W) → Leaves s.selected (settle server s o)
    unfolding settle
    settle-Leaves s (ok a, w) = done
    settle-Leaves s (err f, w) = elim (Bool-cases (recoverable f)) [
      | inl b ↦ let (gone, same) = discard-client s w in rw b (redial gone same)
      | inr b ↦ rw b done
    ]

    module _ {A : Type 0} (fn fn' : C → W → Result A × W) where
      abbrev Agree : Text → Type 0
      Agree name = (c : C) (w : W) → HasOpen name c w → fn c w ≡ fn' c w

      connected-step :
          (name : Text) (o : Out server C)
          → Agree name
          → Connected name o
          → (connected server fn o ≡ connected server fn' o) × Leaves name (connected server fn o)
      unfolding connected run_command
      connected-step name _ agree (live {c} {s} {w} e n h) = (
        ap (settle server s) (agree c w h),
        subst (λ k. Leaves k (settle server s (fn c w))) n (settle-Leaves s (fn c w)),
      )
      connected-step name _ agree (down {e} {s} {w} c n) =
          elim (Bool-cases (is_fatal_account (severity_of e))) [
            | inl b ↦ (refl, rw b done)
            | inr b ↦ (refl, rw b (redial c n))
          ]

      round-step :
          (s : Session C) (w : W)
          → Agree s.selected
          → InStep s w
          → (round server fn s w ≡ round server fn' s w) × Leaves s.selected (round server fn s w)
      unfolding round
      round-step s w agree v = elim (Option-cases (ctx_err w)) [
        | inl h ↦
            let (same, left) =
              connected-step s.selected (ensure_connected server s w) agree
                (ensure-Connected s w v) in
            rw (h, round) (same, left)
        | inr (e, h) ↦ rw (h, round) (refl, done)
      ]

      loop-same :
          (op : Text) (n left attempt : ℕ) (s : Session C) (w : W)
          → Agree s.selected
          → InStep s w
          → do_loop server fn op n left attempt s w ≡ do_loop server fn' op n left attempt s w
      unfolding do_loop
      loop-same op n zero attempt s w agree v = rw ((round-step s w agree v).0, do_loop) refl
      loop-same op n (suc left) attempt s w agree v =
          let (same, left_behind) = round-step s w agree v in
          go (loop-same op n left) (round server fn s w) refl (sym same) left_behind
        where
          go :
              ((k : ℕ) (t : Session C) (x : W)
                → Agree t.selected
                → InStep t x
                → do_loop server fn op n left k t x ≡ do_loop server fn' op n left k t x)
              → (r : Round C W A) → round server fn s w ≡ r
              → round server fn' s w ≡ r
              → Leaves s.selected r
              → do_loop server fn op n (suc left) attempt s w
                ≡ do_loop server fn' op n (suc left) attempt s w
          go ih _ h h' done = rw (h, do_loop) (rw (h', do_loop) refl)
          go ih _ h h' (redial {e = e} {s = t} {w = x} gone sel) =
              elim (Bool-cases (pause attempt x).0) [
                | inl b ↦
                    rw (h, b, do_loop)
                      (rw (h', b, do_loop)
                        (ih (attempt + 1) t (pause attempt x).1 (rw sel agree) (λ c k. cc)))
                | inr b ↦ rw (h, b, do_loop) (rw (h', b, do_loop) refl)
              ]

    -- A command sent through Do only ever runs with the mailbox open that the session remembers,
    -- however often it reconnects: two commands that agree on such connections have the same
    -- result and leave the same session and the same outside behind. It is asked that SELECT, when
    -- it succeeds, opens the mailbox, and that a client which is still usable has it open at first.
    pub do_command-in_mailbox :
        {A : Type 0} (fn fn' : C → W → Result A × W) (attempts : ℕ) (op : Text) (s : Session C)
        (w : W)
        → ((c : C) (x : W) → HasOpen s.selected c x → fn c x ≡ fn' c x)
        → InStep s w
        → do_command server fn attempts op s w ≡ do_command server fn' attempts op s w
    unfolding do_command
    do_command-in_mailbox fn fn' attempts op s w agree v = loop-same fn fn' op _ _ 1 s w agree v
