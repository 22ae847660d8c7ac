-- ===== src/Syncer/Planner/Budget.antt =====
-- PlanBatches keeps every batch within the budget, the overflow of its byte counter included.
use imapped.Base.{
  ℕ, ◌+◌, ◌≤◌, ◌<◌, ◌≡◌, refl, ◌⊎◌, inl, inr, false, List, [], ◌∷◌, ◌++◌, arith, Bool-cases, length,
  is_empty-nil, All, All-imp, All-append, length-append, max, leb, ◌&&◌, ◌||◌,
}
use imapped.Base.Int64
use imapped.Base.Int64.{two63}
use imapped.Syncer.Planner.{
  SizedUid, BatchBudget, Plan, flush, is_solo, is_over, send_alone, make_room, add_message,
  plan_step, plan_loop, plan_batches, at_least_one,
}

abbrev pub total : List SizedUid → ℕ
total [] = 0
total (m ∷ ms) = m.size + total ms

total-append : (xs ys : List SizedUid) → total (xs ++ ys) ≡ total xs + total ys
total-append [] ys = omega arith
total-append (x ∷ xs) ys = omega (arith, total-append xs ys)

-- 2 ^ 62: two such sizes add up with no overflow.
abbrev pub size_limit : ℕ
size_limit = 0x4000000000000000

-- The settings are not negative, and the byte budget leaves room for one more message.
pub record InRange (b : BatchBudget) : Type 0 where
  pub bytes : b.max_bytes < size_limit
  pub messages : b.max_messages < two63
  pub solo : b.solo_above < two63

-- A batch that may go out: it is not empty, has no more messages than the budget allows, and unless
-- it is a single message it fits the byte budget (if there is one) and holds no outsized message.
pub record Fits (b : BatchBudget) (batch : List SizedUid) : Type 0 where
  pub not_empty : 0 < length batch
  pub within_count : length batch ≤ max 1 b.max_messages
  pub within_bytes : (length batch ≡ 1) ⊎ (b.max_bytes ≡ 0) ⊎ (total batch ≤ b.max_bytes)
  pub no_outsized : (length batch ≡ 1) ⊎ All (λ m. is_solo b m ≡ false) batch

record Inv (b : BatchBudget) (p : Plan) : Type 0 where
  sent : All (Fits b) p.batches
  open_batch : (p.current ≡ []) ⊎ Fits b p.current
  counted : (b.max_bytes ≡ 0) ⊎ ((p.bytes ≡ total p.current) × (total p.current < size_limit))
  unsent : All (λ m. is_solo b m ≡ false) p.current

Fits-one : (b : BatchBudget) (m : SizedUid) → Fits b (m ∷ [])
Fits-one b m = record {
  not_empty = omega arith;
  within_count = omega arith;
  within_bytes = inl refl;
  no_outsized = inl refl;
}

joined_small :
    (mb n s t : ℕ)
    → (mb ≡ 0) ⊎ ((n ≡ t) × (t < size_limit))
    → s < size_limit
    → t ≡ 0
    → (mb ≡ 0) ⊎ ((Int64.add n s ≡ s + 0) × (s + 0 < size_limit))
joined_small mb n s t (inl e) h z = inl e
joined_small mb n s t (inr e) h z = inr (omega (arith, Int64.add_small n s), omega arith)

-- What a test that is_over fails says, with the sum of two small sizes exact.
room_facts :
    (mb mm n s t len : ℕ)
    → mb < size_limit
    → s < size_limit
    → (Int64.lt 0 mb && Int64.lt mb (Int64.add n s) || leb mm len) ≡ false
    → (mb ≡ 0) ⊎ ((n ≡ t) × (t < size_limit))
    → (len < mm) × ((mb ≡ 0) ⊎ ((Int64.add n s ≡ t + s) × (t + s ≤ mb)))
room_facts mb mm n s t len hm hs e (inl z) = (ground arith, inl z)
room_facts mb mm n s t len hm hs e (inr c) =
    let exact : Int64.add n s ≡ n + s = Int64.add_small n s (omega arith) in
    ground (arith, exact, Int64.lt_small 0 mb, Int64.lt_small mb (n + s))

bytes_fit :
    (mb n t s u : ℕ)
    → u ≡ t + (s + 0)
    → (mb ≡ 0) ⊎ ((n ≡ t + s) × (t + s ≤ mb))
    → (mb ≡ 0) ⊎ (u ≤ mb)
bytes_fit mb n t s u e h = omega arith

bytes_counted :
    (mb n t s u : ℕ)
    → mb < size_limit
    → u ≡ t + (s + 0)
    → (mb ≡ 0) ⊎ ((n ≡ t + s) × (t + s ≤ mb))
    → (mb ≡ 0) ⊎ ((n ≡ u) × (u < size_limit))
bytes_counted mb n t s u k e (inl h) = inl h
bytes_counted mb n t s u k e (inr h) = inr (omega arith, omega arith)

module _ (b : BatchBudget) where
  flush_parts :
      (bs : List (List SizedUid)) (c : List SizedUid) (n : ℕ)
      → Inv b (record { batches = bs; current = c; bytes = n })
      → let q = flush (record { batches = bs; current = c; bytes = n }) in
        Inv b q × (q.current ≡ [])
  unfolding flush
  flush_parts bs [] n v = (v, refl)
  flush_parts bs (x ∷ xs) n v = (
    record {
      sent = All-append (Fits b) bs _ v.sent (full v.open_batch, tt);
      open_batch = inl refl;
      counted = inr (refl, omega arith);
      unsent = tt;
    },
    refl,
  )
    where
      full : ((x ∷ xs) ≡ []) ⊎ Fits b (x ∷ xs) → Fits b (x ∷ xs)
      full (inl e) = cc
      full (inr f) = f

  flush-Inv : (p : Plan) → Inv b p → Inv b (flush p) × ((flush p).current ≡ [])
  flush-Inv p = flush_parts p.batches p.current p.bytes

  send_alone-Inv : (p : Plan) (m : SizedUid) → Inv b p → Inv b (send_alone p m)
  unfolding send_alone
  send_alone-Inv p m v =
      let (w, e) = flush-Inv p v in
      record {
        sent = All-append (Fits b) _ _ w.sent (Fits-one b m, tt);
        open_batch = w.open_batch;
        counted = w.counted;
        unsent = w.unsent;
      }

  -- What `is_over` has ruled out when a message joins a batch.
  abbrev HasRoom : Plan → SizedUid → Type 0
  HasRoom p m = (p.current ≡ []) ⊎ (is_over b p m ≡ false)

  make_room-Inv :
      (p : Plan) (m : SizedUid) → Inv b p → Inv b (make_room b p m) × HasRoom (make_room b p m) m
  unfolding make_room
  make_room-Inv p m v = ground (arith, flush-Inv p v, is_empty-nil p.current)

  join_parts :
      (range : InRange b) (bs : List (List SizedUid)) (c : List SizedUid) (n : ℕ) (m : SizedUid)
      → m.size < size_limit
      → is_solo b m ≡ false
      → Inv b (record { batches = bs; current = c; bytes = n })
      → HasRoom (record { batches = bs; current = c; bytes = n }) m
      → Inv b (add_message (record { batches = bs; current = c; bytes = n }) m)
  unfolding add_message is_over
  join_parts range bs [] n m small solo v room = record {
    sent = v.sent;
    open_batch = inr (Fits-one b m);
    counted = joined_small b.max_bytes n m.size 0 v.counted small refl;
    unsent = (solo, tt);
  }
  join_parts range bs (x ∷ xs) n m small solo v (inl e) = cc
  join_parts range bs (x ∷ xs) n m small solo v (inr e) =
      let facts =
        room_facts b.max_bytes b.max_messages n m.size (total (x ∷ xs)) (length (x ∷ xs))
          range.bytes small e v.counted in
      record {
        sent = v.sent;
        open_batch = inr (record {
          not_empty = omega arith;
          within_count = omega (arith, length-append {0} (x ∷ xs) (m ∷ []));
          within_bytes =
              inr (bytes_fit b.max_bytes _ _ m.size _ (total-append (x ∷ xs) (m ∷ [])) facts.1);
          no_outsized = inr (All-append _ (x ∷ xs) (m ∷ []) v.unsent (solo, tt));
        });
        counted =
            bytes_counted b.max_bytes _ _ m.size _ range.bytes (total-append (x ∷ xs) (m ∷ []))
              facts.1;
        unsent = All-append _ (x ∷ xs) (m ∷ []) v.unsent (solo, tt);
      }

  step-Inv :
      (range : InRange b) (p : Plan) (m : SizedUid)
      → m.size < size_limit
      → Inv b p
      → Inv b (plan_step b p m)
  unfolding plan_step
  step-Inv range p m small v = elim (Bool-cases (is_solo b m)) [
    | inl e ↦ rw e (send_alone-Inv p m v)
    | inr e ↦
        let q = make_room b p m in
        let (w, room) = make_room-Inv p m v in
        rw e (join_parts range q.batches q.current q.bytes m small e w room)
  ]

  loop-Inv :
      (range : InRange b) (p : Plan) (ms : List SizedUid)
      → All (λ m. m.size < size_limit) ms
      → Inv b p
      → Inv b (plan_loop b p ms)
  unfolding plan_loop
  loop-Inv range p [] small v = v
  loop-Inv range p (m ∷ ms) small v =
      loop-Inv range (plan_step b p m) ms small.1 (step-Inv range p m small.0 v)

at_least_one-max : (n : ℕ) → n < two63 → at_least_one n ≡ max 1 n
unfolding at_least_one
at_least_one-max n h = ground (arith, Int64.lt_small n 1)

-- A budget and the one that the loop runs with allow the same batches.
Fits-raised :
    (b : BatchBudget) (k : ℕ)
    → k ≡ max 1 b.max_messages
    → (batch : List SizedUid) → Fits (record b { max_messages = k }) batch
    → Fits b batch
unfolding is_solo
Fits-raised b k e batch f = record {
  not_empty = f.not_empty;
  within_count = omega (arith, f.within_count);
  within_bytes = f.within_bytes;
  no_outsized = f.no_outsized;
}

-- With settings and sizes in range, every batch that PlanBatches sends is nonempty, has at most
-- MaxMessages messages (at least one is allowed), and unless it is a single message stays within
-- MaxBytes, when that is set, and holds no message above SoloAbove.
pub plan_batches-Fits :
    (ms : List SizedUid) (b : BatchBudget)
    → InRange b
    → All (λ m. m.size < size_limit) ms
    → All (Fits b) (plan_batches ms b)
unfolding plan_batches
plan_batches-Fits [] b range small = tt
plan_batches-Fits (m ∷ ms) b range small =
    let k = at_least_one b.max_messages in
    let e : k ≡ max 1 b.max_messages = at_least_one-max b.max_messages range.messages in
    let b' : BatchBudget = record b { max_messages = k } in
    let range' : InRange b' = record {
      bytes = range.bytes;
      messages = omega (arith, range.messages);
      solo = range.solo;
    } in
    let start : Plan = record { batches = []; current = []; bytes = 0 } in
    let v : Inv b' start = record {
      sent = tt;
      open_batch = inl refl;
      counted = inr (refl, omega arith);
      unsent = tt;
    } in
    let done : Inv b' (plan_loop b' start (m ∷ ms)) = loop-Inv b' range' start (m ∷ ms) small v in
    All-imp _ _ (Fits-raised b k e) _ (flush-Inv b' _ done).0.sent
