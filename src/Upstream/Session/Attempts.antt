-- ===== src/Upstream/Session/Attempts.antt =====
-- How often Do runs a command, and what Select leaves behind.
use imapped.Base.{
  ℕ, zero, suc, ◌+◌, ◌-◌, ◌≤◌, ◌<◌, ◌≡◌, refl, ap, ◌∙◌, inl, inr, Bool, false, none, some, ◌++◌,
  arith, if◌then◌else◌, Bool-cases, Option-cases, is_empty, max,
}
use imapped.Base.Int64
use imapped.Base.Int64.{two63}
use imapped.Base.Text.{Text, codes}
use imapped.Upstream.Errors.{Error, Result, ok, err, Result-cases, severity_of}
use imapped.Upstream.Session.{
  Server, Session, Out, discard, reopen, dial, ensure_connected, Round, returns, retries,
  run_command, settle, connected, round, do_loop, do_command, select_mailbox, note_selected,
  is_fatal_account, recoverable,
}

-- What a session does besides the command itself leaves a count alone.
pub record IsQuiet {C W : Type 0} (server : Server C W) (sent : W → ℕ) : Type 0 where
  pub in_pause : (n : ℕ) (w : W) → sent (Server.pause server n w).1 ≡ sent w
  pub in_connect : (w : W) → sent (Server.connect server w).1 ≡ sent w
  pub in_select :
      (c : C) (name : Text) (ro : Bool) (w : W) → sent (Server.select server c name ro w).1 ≡ sent w
  pub in_close : (c : C) (w : W) → sent (Server.close server c w) ≡ sent w

module _ {C W : Type 0} (server : Server C W) (sent : W → ℕ) (quiet : IsQuiet server sent) where
  open server use {ctx_err, pause, connect, select, close, poisoned}

  sent-discard : (s : Session C) (w : W) → sent (discard server s w).1 ≡ sent w
  unfolding discard
  sent-discard s w = elim (Option-cases s.client) [
    | inl e ↦ rw (e, discard) refl
    | inr (c, e) ↦ rw (e, discard) (quiet.in_close c w)
  ]

  sent-reopen : (c : C) (s : Session C) (w : W) → sent (reopen server c s w).2 ≡ sent w
  unfolding reopen
  sent-reopen c s w = elim (Bool-cases (is_empty s.selected)) [
    | inl b ↦ rw (b, reopen) refl
    | inr b ↦ elim (Result-cases (select c s.selected s.read_only w).0) [
      | inl (d, e) ↦ rw (b, e, reopen) (quiet.in_select c s.selected s.read_only w)
      | inr (f, e) ↦
          rw (b, e, reopen) (quiet.in_close c _ ∙ quiet.in_select c s.selected s.read_only w)
    ]
  ]

  sent-dial : (s : Session C) (w : W) → sent (dial server s w).2 ≡ sent w
  unfolding dial
  sent-dial s w = elim (Result-cases (connect w).0) [
    | inl (c, e) ↦ rw (e, dial) (sent-reopen c s (connect w).1 ∙ quiet.in_connect w)
    | inr (f, e) ↦ rw (e, dial) (quiet.in_connect w)
  ]

  sent-ensure : (s : Session C) (w : W) → sent (ensure_connected server s w).2 ≡ sent w
  unfolding ensure_connected
  sent-ensure s w = elim (Option-cases s.client) [
    | inl e ↦ rw (e, ensure_connected) (sent-dial s w)
    | inr (c, e) ↦ elim (Bool-cases (poisoned c w)) [
      | inl b ↦ rw (e, b, ensure_connected) (sent-dial _ _ ∙ sent-discard s w)
      | inr b ↦ rw (e, b, ensure_connected) refl
    ]
  ]

  abbrev world_of : {A : Type 0} → Round C W A → W
  world_of (returns r s w) = w
  world_of (retries e s w) = w

  module _ {A : Type 0} (fn : C → W → Result A × W)
      (once : (c : C) (w : W) → sent (fn c w).1 ≤ sent w + 1) where
    sent-settle :
        (s : Session C) (o : Result A × W) → sent (world_of (settle server s o)) ≡ sent o.1
    unfolding settle
    sent-settle s (ok a, w) = refl
    sent-settle s (err f, w) = elim (Bool-cases (recoverable f)) [
      | inl b ↦ rw b (sent-discard s w)
      | inr b ↦ rw b refl
    ]

    sent-connected : (o : Out server C) → sent (world_of (connected server fn o)) ≤ sent o.2 + 1
    unfolding connected run_command
    sent-connected (ok c, s, w) = rw (sent-settle s (fn c w)) (once c w)
    sent-connected (err e, s, w) = elim (Bool-cases (is_fatal_account (severity_of e))) [
      | inl b ↦ rw b (omega arith)
      | inr b ↦ rw b (omega arith)
    ]

    sent-round : (s : Session C) (w : W) → sent (world_of (round server fn s w)) ≤ sent w + 1
    unfolding round
    sent-round s w = elim (Option-cases (ctx_err w)) [
      | inl h ↦
          rw (h, round)
            (omega (arith, sent-connected (ensure_connected server s w), sent-ensure s w))
      | inr (e, h) ↦ rw (h, round) (omega arith)
    ]

    sent-loop :
        (op : Text) (n left attempt : ℕ) (s : Session C) (w : W)
        → sent (do_loop server fn op n left attempt s w).2 ≤ sent w + suc left
    unfolding do_loop
    sent-loop op n zero attempt s w = go (round server fn s w) refl (sent-round s w)
      where
        go :
            (r : Round C W A)
            → round server fn s w ≡ r
            → sent (world_of r) ≤ sent w + 1
            → sent (do_loop server fn op n zero attempt s w).2 ≤ sent w + 1
        go (returns r t x) h k = rw (h, do_loop) k
        go (retries e t x) h k = rw (h, do_loop) (omega (arith, quiet.in_pause attempt x))
    sent-loop op n (suc left) attempt s w =
        go (sent-loop op n left) (round server fn s w) refl (sent-round s w)
      where
        go :
            ((k : ℕ) (t : Session C) (x : W)
              → sent (do_loop server fn op n left k t x).2 ≤ sent x + suc left)
            → (r : Round C W A) → round server fn s w ≡ r
            → sent (world_of r) ≤ sent w + 1
            → sent (do_loop server fn op n (suc left) attempt s w).2 ≤ sent w + suc (suc left)
        go ih (returns r t x) h k = rw (h, do_loop) (omega arith)
        go ih (retries e t x) h k = elim (Bool-cases (pause attempt x).0) [
          | inl b ↦
              rw (h, b, do_loop)
                (omega (arith, ih (attempt + 1) t (pause attempt x).1, quiet.in_pause attempt x))
          | inr b ↦ rw (h, b, do_loop) (omega (arith, quiet.in_pause attempt x))
        ]

    -- Do runs its command at most as often as the setting allows, and never more than once where
    -- the setting is below 2: `sent` counts the runs, and nothing else that a session does moves it.
    pub sent-do_command :
        (attempts : ℕ) (op : Text) (s : Session C) (w : W)
        → attempts < two63
        → sent (do_command server fn attempts op s w).2 ≤ sent w + max 1 attempts
    unfolding do_command
    sent-do_command attempts op s w h =
        let e : (if Int64.lt attempts 1 then 1 else attempts) ≡ max 1 attempts =
          ground (arith, Int64.lt_small attempts 1 h) in
        rw e (omega (arith, sent-loop op (max 1 attempts) (max 1 attempts - 1) 1 s w))

module _ {C W : Type 0} (server : Server C W) where
  open server use {ctx_err, select, poisoned}

  round_live :
      {A : Type 0} (fn : C → W → Result A × W) (s : Session C) (w v : W) (c : C) (e : Error)
      → s.client ≡ some c
      → poisoned c w ≡ false
      → ctx_err w ≡ none
      → fn c w ≡ (err e, v)
      → recoverable e ≡ false
      → round server fn s w ≡ returns (err e) s v
  unfolding round connected run_command settle ensure_connected
  round_live fn s w v c e hc hp hx hf hr =
      let live : ensure_connected server s w ≡ (ok c, s, w) = ground (arith, hc, hp) in
      rw (hx, round) (rw live (rw hf (rw hr refl)))

  loop_ends :
      {A : Type 0} (fn : C → W → Result A × W) (op : Text) (n left attempt : ℕ) (s t : Session C)
      (w v : W) (r : Result A)
      → round server fn s w ≡ returns r t v
      → do_loop server fn op n left attempt s w ≡ (r, t, v)
  unfolding do_loop
  loop_ends fn op n zero attempt s t w v r h = rw (h, do_loop) refl
  loop_ends fn op n (suc left) attempt s t w v r h = rw (h, do_loop) refl

  -- Where the server refuses a SELECT on a live connection, for a reason that reconnecting would
  -- not mend, Select reports the refusal at once, after one attempt whatever the setting, and the
  -- session keeps the connection and the name of the mailbox that was open before.
  select_mailbox_refused :
      (attempts : ℕ) (name : Text) (ro : Bool) (s : Session C) (w v : W) (c : C) (e : Error)
      → s.client ≡ some c
      → poisoned c w ≡ false
      → ctx_err w ≡ none
      → select c name ro w ≡ (err e, v)
      → recoverable e ≡ false
      → select_mailbox server attempts name ro s w ≡ (err e, s, v)
  unfolding select_mailbox
  select_mailbox_refused attempts name ro s w v c e hc hp hx hs hr =
      ap (note_selected server name ro) (
        loop_ends (λ d. select d name ro) (codes "select " ++ name) _ _ 1 s s w v (err e)
          (round_live (λ d. select d name ro) s w v c e hc hp hx hs hr))
