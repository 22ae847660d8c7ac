-- ===== src/Syncer/Planner/Batches.antt =====
-- What PlanBatches promises: every message once, in order, in batches within the budget.
use imapped.Base.{
  ◌≡◌, refl, sym, ap, ◌∙◌, inl, inr, List, [], ◌∷◌, ◌++◌, append-nil, append_assoc, arith,
  Bool-cases, concat, concat-append,
}
use imapped.Syncer.Planner.{
  SizedUid, BatchBudget, Plan, flush, is_solo, send_alone, make_room, add_message, plan_step,
  plan_loop, plan_batches,
}

-- The messages that a plan holds so far.
abbrev view : Plan → List SizedUid
view p = concat p.batches ++ p.current

view-snoc : (bs : List (List SizedUid)) (b : List SizedUid) → concat (bs ++ b ∷ []) ≡ concat bs ++ b
view-snoc bs b = concat-append bs (b ∷ []) ∙ ap (◌++◌ (concat bs)) (append-nil b)

flush-view : (p : Plan) → concat (flush p).batches ≡ view p
unfolding flush
flush-view p = go p.current refl
  where
    go : (c : List SizedUid) → p.current ≡ c → concat (flush p).batches ≡ view p
    go [] e = rw e (sym (append-nil (concat p.batches)))
    go (x ∷ xs) e = rw e (view-snoc p.batches (x ∷ xs))

flush-current : (p : Plan) → (flush p).current ≡ []
unfolding flush
flush-current p = ground arith

send_alone-view : (p : Plan) (m : SizedUid) → view (send_alone p m) ≡ view p ++ m ∷ []
unfolding send_alone
send_alone-view p m =
    rw (flush-current p, append-nil, view-snoc) (ap (λ xs. xs ++ m ∷ []) (flush-view p))

make_room-view : (b : BatchBudget) (p : Plan) (m : SizedUid) → view (make_room b p m) ≡ view p
unfolding make_room
make_room-view b p m = ground (arith, flush-view p, flush-current p, append-nil (view p))

add_message-view : (p : Plan) (m : SizedUid) → view (add_message p m) ≡ view p ++ m ∷ []
unfolding add_message
add_message-view p m = sym (append_assoc (concat p.batches) p.current (m ∷ []))

step-view : (b : BatchBudget) (p : Plan) (m : SizedUid) → view (plan_step b p m) ≡ view p ++ m ∷ []
unfolding plan_step
step-view b p m = elim (Bool-cases (is_solo b m)) [
  | inl e ↦ rw e (send_alone-view p m)
  | inr e ↦ rw e (rw add_message-view (rw make_room-view refl))
]

loop-view :
    (b : BatchBudget) (p : Plan) (ms : List SizedUid) → view (plan_loop b p ms) ≡ view p ++ ms
unfolding plan_loop
loop-view b p [] = sym (append-nil (view p))
loop-view b p (m ∷ ms) =
    loop-view b (plan_step b p m) ms
    ∙ ap (λ xs. xs ++ ms) (step-view b p m)
    ∙ append_assoc (view p) (m ∷ []) ms

-- The batches, end to end, are exactly the messages that went in, in the same order: none is lost,
-- repeated or split.
pub concat-plan_batches : (ms : List SizedUid) (b : BatchBudget) → concat (plan_batches ms b) ≡ ms
unfolding plan_batches
concat-plan_batches [] b = refl
concat-plan_batches (m ∷ ms) b = flush-view _ ∙ loop-view _ _ (m ∷ ms)
