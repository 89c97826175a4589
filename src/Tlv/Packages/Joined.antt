-- ===== src/Tlv/Packages/Joined.antt =====
-- The parts of a segment are it, in order.
use mt5700_console.Base.{
  ℕ, zero, suc, ◌*◌, ◌≤◌, ◌≡◌, refl, ap, ◌∙◌, inl, inr, true, ◌&&◌, [], ◌∷◌, ◌++◌, arith, ltb, leb,
  Bool-cases, length, take, drop, flatten, All, take-append-drop, length-take, length-drop, Str,
}
use mt5700_console.Tlv.Packages.{chunk_limit, cut_chunks}

pub chunk_limit-bounds : (mss : ℕ) → (1 ≤ chunk_limit mss) × (chunk_limit mss ≤ 240)
unfolding chunk_limit
chunk_limit-bounds mss = elim (Bool-cases (ltb 0 mss && leb mss 240)) [
  | inl e ↦ rw e (inside mss e)
  | inr e ↦ rw e (omega arith)
]
  where
    inside : (m : ℕ) → (ltb 0 m && leb m 240) ≡ true → (1 ≤ m) × (m ≤ 240)
    inside m h = (ground arith, ground arith)

pub flatten-cut_chunks :
    (fuel limit : ℕ) (hex : Str)
    → 1 ≤ limit
    → length hex ≤ fuel
    → flatten (cut_chunks fuel limit hex) ≡ hex
unfolding cut_chunks
flatten-cut_chunks zero limit [] h f = refl
flatten-cut_chunks zero limit (c ∷ hex) h f = absurd (omega arith)
flatten-cut_chunks (suc fuel) limit [] h f = refl
flatten-cut_chunks (suc fuel) limit (c ∷ hex) h f =
    ap (◌++◌ (take (limit * 2) (c ∷ hex))) (
      flatten-cut_chunks fuel limit (drop (limit * 2) (c ∷ hex)) h
        (omega (arith, length-drop (limit * 2) (c ∷ hex))))
    ∙ take-append-drop (limit * 2) (c ∷ hex)

pub length-cut_chunks :
    (fuel limit : ℕ) (hex : Str) → All (λ c. length c ≤ limit * 2) (cut_chunks fuel limit hex)
unfolding cut_chunks
length-cut_chunks zero limit hex = tt
length-cut_chunks (suc fuel) limit [] = tt
length-cut_chunks (suc fuel) limit (c ∷ hex) = (
  omega (arith, length-take (limit * 2) (c ∷ hex)),
  length-cut_chunks fuel limit (drop (limit * 2) (c ∷ hex)),
)
