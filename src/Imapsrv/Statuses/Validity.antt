-- ===== src/Imapsrv/Statuses/Validity.antt =====
-- The UIDVALIDITY that clients see, before and after a reset of the mailbox.
use imapped.Base.{
  ℕ, zero, suc, ◌+◌, ◌*◌, ◌/◌, ◌^◌, ◌<◌, ◌≡◌, refl, ap, ◌∙◌, sym, some, List, [], ◌∷◌, arith,
  select, Bool-cases, inl, inr,
}
use mathlib.Core.Option
use imapped.Store.Sql.{head_of, update_where}
use imapped.Store.Tables.{Mailbox, Database}
use imapped.Store.Messages.{has_id}
use imapped.Store.Mailboxes.{get_mailbox, restart_scan, reset_for_uid_validity_change}
use imapped.Imapsrv.Statuses.{xor, uid_validity, uint32}

xor_comm : (w a b : ℕ) → xor w a b ≡ xor w b a
unfolding xor
xor_comm zero a b = refl
xor_comm (suc w) a b = omega (arith, xor_comm w (a / 2) (b / 2))

xor-lt : (w a b : ℕ) → xor w a b < 2 ^ w
unfolding xor
xor-lt zero a b = omega arith
xor-lt (suc w) a b = omega (arith, xor-lt w (a / 2) (b / 2))

-- Numbers of `w` bits that differ still differ after an exclusive or with the same number.
xor_cancel : (w a b c : ℕ) → b < 2 ^ w → c < 2 ^ w → xor w a b ≡ xor w a c → b ≡ c
unfolding xor
xor_cancel zero a b c hb hc h = omega arith
xor_cancel (suc w) a b c hb hc h =
    omega (arith, xor_cancel w (a / 2) (b / 2) (c / 2) (omega arith) (omega arith) (omega arith))

uint32-lt : (n : ℕ) → uint32 n < 2 ^ 32
uint32-lt n = omega arith

uint32_small : (n : ℕ) → n < 2 ^ 32 → uint32 n ≡ n
uint32_small n h = omega arith

uid_validity-cancel :
    (m n : Mailbox)
    → m.id ≡ n.id
    → m.sync_generation < 2 ^ 32
    → n.sync_generation < 2 ^ 32
    → uid_validity m ≡ uid_validity n
    → m.sync_generation ≡ n.sync_generation
unfolding uid_validity
uid_validity-cancel m n e hm hn h =
    let mixed : Mailbox → ℕ = λ b. xor 32 (uint32 (b.id * 2 ^ 8)) (uint32 b.sync_generation) in
    let h₁ : xor 32 0x9E3779B9 (mixed m) ≡ xor 32 0x9E3779B9 (mixed n) =
      xor_comm 32 0x9E3779B9 (mixed m) ∙ h ∙ xor_comm 32 (mixed n) 0x9E3779B9 in
    let h₂ : mixed m ≡ mixed n = xor_cancel 32 0x9E3779B9 _ _ (xor-lt 32 _ _) (xor-lt 32 _ _) h₁ in
    let h₃ : xor 32 (uint32 (n.id * 2 ^ 8)) (uint32 m.sync_generation) ≡ mixed n =
      ap (λ i. xor 32 (uint32 (i * 2 ^ 8)) (uint32 m.sync_generation)) (sym e) ∙ h₂ in
    let h₄ =
      xor_cancel 32 _ (uint32 m.sync_generation) (uint32 n.sync_generation) (uint32-lt _)
        (uint32-lt _) h₃ in
    sym (uint32_small m.sync_generation hm) ∙ h₄ ∙ uint32_small n.sync_generation hn

first-update :
    (id v : ℕ) (rows : List Mailbox) (b : Mailbox)
    → head_of (select (has_id id) rows) ≡ some b
    → head_of (select (has_id id) (update_where (has_id id) (restart_scan v) rows))
      ≡ some (restart_scan v b)
unfolding restart_scan
first-update id v [] b h = cc
first-update id v (a ∷ rows) b h = elim (Bool-cases (has_id id a)) [
  | inl e ↦
      let first : head_of (select (has_id id) (a ∷ rows)) ≡ some a = rw (e) refl in
      rw (e, e) (ap (Option.map (restart_scan v)) (sym first ∙ h))
  | inr e ↦
      let rest : head_of (select (has_id id) (a ∷ rows)) ≡ head_of (select (has_id id) rows) =
        rw (e) refl in
      rw (e, e) (first-update id v rows b (sym rest ∙ h))
]

suc≢self : (n : ℕ) → suc n ≡ n → ⊥
suc≢self n e = omega arith

-- A reset of a mailbox, with which the sync answers a new UIDVALIDITY upstream, changes the
-- UIDVALIDITY that clients see, as long as the generation fits 32 bits.
pub reset-uid_validity :
    (id v : ℕ) (db : Database) (b : Mailbox)
    → get_mailbox id db ≡ some b
    → b.sync_generation + 1 < 2 ^ 32
    → (get_mailbox id (reset_for_uid_validity_change id v db) ≡ some (restart_scan v b))
      × (uid_validity (restart_scan v b) ≡ uid_validity b → ⊥)
unfolding get_mailbox reset_for_uid_validity_change restart_scan
reset-uid_validity id v db b h k = (
  first-update id v db.mailboxes b h,
  λ e.
      suc≢self b.sync_generation
        (uid_validity-cancel (restart_scan v b) b refl (omega arith) (omega arith) e),
)
