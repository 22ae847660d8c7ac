-- ===== src/Blob/Files/Ranges.antt =====
-- internal/blob: the two ways in which a range is cut out of an object.
use imapped.Base.{
  ℕ, zero, suc, ◌≤◌, ◌<◌, ◌≡◌, refl, ap, sym, ◌∙◌, inl, inr, true, List, [], ◌∷◌, arith, ltb,
  length, length-drop, take, drop, if◌then◌else◌, Bool-cases,
}
use imapped.Base.Int64
use imapped.Base.Int64.{two63}
use imapped.Blob.Memory
use imapped.Blob.Memory.{Objects, lookup, assign, delete, beside, info_of}

drop_behind : (n : ℕ) (d : List ℕ) → length d ≤ n → drop n d ≡ []
drop_behind zero [] h = refl
drop_behind zero (x ∷ d) h = ground (arith, h)
drop_behind (suc n) [] h = refl
drop_behind (suc n) (x ∷ d) h = drop_behind n d (omega (arith, h))

take_behind : (n : ℕ) (d : List ℕ) → length d ≤ n → take n d ≡ d
take_behind zero [] h = refl
take_behind zero (x ∷ d) h = ground (arith, h)
take_behind (suc n) [] h = refl
take_behind (suc n) (x ∷ d) h = ap (◌∷◌ x) (take_behind n d (omega (arith, h)))

clamped :
    (offset : ℕ) (d : List ℕ)
    → drop (if ltb (length d) offset then length d else offset) d ≡ drop offset d
clamped offset d = elim (Bool-cases (ltb (length d) offset)) [
  | inl e ↦
      rw e (drop_behind (length d) d (omega arith) ∙ sym (drop_behind offset d (ground (arith, e))))
  | inr e ↦ rw e refl
]

-- The file's bytes from an offset on.
abbrev tail_from : ℕ → List ℕ → List ℕ
tail_from offset d = if Int64.lt 0 offset then drop offset d else d

tail_from-drop : (offset : ℕ) (d : List ℕ) → offset < two63 → tail_from offset d ≡ drop offset d
unfolding Int64.lt
tail_from-drop zero d h = ground arith
tail_from-drop (suc n) d h = rw positive refl
  where
    positive : Int64.lt 0 (suc n) ≡ true
    positive = ground (arith, h)

-- The two ways to cut a range out of an object.
pub slice_same :
    (offset count : ℕ) (d : List ℕ)
    → offset < two63
    → length d < two63
    → Memory.slice offset count d
      ≡ (if Int64.le count 0 then tail_from offset d else take count (tail_from offset d))
unfolding Memory.slice Int64.lt Int64.le
slice_same offset count d h k =
    rw (clamped offset d, tail_from-drop offset d h)
      (ground (arith, take_behind count (drop offset d), k, length-drop offset d))
