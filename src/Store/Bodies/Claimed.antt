-- ===== src/Store/Bodies/Claimed.antt =====
-- Which messages a worker claims, and how many.
use imapped.Base.{
  ℕ, ◌≤◌, ◌≡◌, inl, inr, Bool, true, ◌&&◌, not, List, map, take, arith, ltb, ◌==◌, select, count,
  All, All-imp, Bool-cases,
}
use imapped.Store.Sql.{order_by, member, count-order_by}
use imapped.Store.Keys.{IsOutdone, others-IsOutdone, member-map, count-take, count-both}
use imapped.Store.Tables.{Database}
use imapped.Store.Bodies.{claimable_ids, is_claimable, uid_of}

selected_by_key :
    {A : Type 0} (key : A → ℕ) (p : A → Bool) (before : A → A → Bool) (limit : ℕ) (rows : List A)
    → ((i : ℕ) → count (λ a. key a == i) rows ≤ 1)
    → All
        (λ a.
          member (key a) (map key (take limit (order_by before (select p rows)))) ≡ true
          → p a ≡ true)
        rows
selected_by_key key p before limit rows u =
    All-imp (IsOutdone key p rows) _
      (λ a h m. elim (Bool-cases (p a)) [
        | inl e ↦ e
        | inr e ↦ ground (
          arith,
          h e,
          u (key a),
          member-map key (key a) (take limit (order_by before (select p rows))) m,
          count-take (λ b. key b == key a) limit (order_by before (select p rows)),
          count-order_by (λ b. key b == key a) before (select p rows),
          count-both (λ b. key b == key a) p rows,
        )
      ])
      rows (others-IsOutdone key p rows)

-- A claim marks only messages of its mailbox whose body is pending, that are on the upstream
-- server and that failed fewer times than the maximum, when the ids of the rows are different.
pub claimed-IsClaimable :
    (locked : ℕ → Bool) (mailbox_id limit most : ℕ) (db : Database)
    → ((i : ℕ) → count (λ e. e.id == i) db.entries ≤ 1)
    → All
        (λ e.
          member e.id (claimable_ids locked mailbox_id limit most db) ≡ true
          → is_claimable mailbox_id most e ≡ true)
        db.entries
unfolding claimable_ids
claimed-IsClaimable locked mailbox_id limit most db u =
    All-imp _ _ (λ e h m. ground (arith, h m)) db.entries
      (selected_by_key (λ e. e.id) (λ e. is_claimable mailbox_id most e && not (locked e.id))
        (λ a b. ltb (uid_of b.upstream_uid) (uid_of a.upstream_uid)) limit db.entries u)
