-- ===== src/Link/Bus/Fronts.antt =====
-- What the bus gives for a number: the front of what is behind it.
use mt5700_console.Base.{
  ℕ, suc, ◌+◌, ◌≤◌, ◌<◌, ◌≡◌, refl, ap, ◌∙◌, ◌⊎◌, inl, inr, Bool, true, false, ◌&&◌, List, [], ◌∷◌,
  ◌++◌, arith, ltb, leb, Bool-cases, &&-right, length, take,
}
use mt5700_console.Link.{Event}
use mt5700_console.Link.Bus.{queue_from, since_loop, since}

queue_from-append :
    (j : ℕ) (xs ys : List Event)
    → queue_from j (xs ++ ys) ≡ queue_from j xs ++ queue_from (j + length xs) ys
unfolding queue_from
queue_from-append j [] ys = ap (λ k. queue_from k ys) (omega arith)
queue_from-append j (x ∷ xs) ys = ap (◌∷◌ (suc j, x)) (
    queue_from-append (suc j) xs ys
    ∙ ap (λ k. queue_from (suc j) xs ++ queue_from k ys) (omega arith))

module _ (size : Event → ℕ) (budget : ℕ) where
  old : (s from : ℕ) → s ≤ from → leb s from ≡ true
  old s from h = ground arith

  new : (s from : ℕ) → from < s → leb s from ≡ false
  new s from h = ground arith

  -- The events up to the number are passed over.
  since_loop-old :
      (from bytes last j : ℕ) (some_out : Bool) (xs : List Event) (q : List (ℕ × Event))
      → j + length xs ≤ from
      → since_loop size budget from bytes some_out last (queue_from j xs ++ q)
        ≡ since_loop size budget from bytes some_out last q
  unfolding queue_from since_loop
  since_loop-old from bytes last j some_out [] q h = refl
  since_loop-old from bytes last j some_out (x ∷ xs) q h =
      rw (old (suc j) from (omega arith), since_loop)
        (since_loop-old from bytes last (suc j) some_out xs q (omega arith))

  -- Some of the events behind the number, and one at least if none was taken before.
  pub record Front (j : ℕ) (some_out : Bool) (ys : List Event) (r : ℕ × List Event) : Type 0 where
    pub count : ℕ
    pub within : count ≤ length ys
    pub progress : (some_out ≡ true) ⊎ ((1 ≤ count) ⊎ (ys ≡ []))
    pub result : r ≡ (j + count, take count ys)

  since_loop-Front :
      (from bytes j : ℕ) (some_out : Bool) (ys : List Event)
      → from ≤ j
      → Front j some_out ys (since_loop size budget from bytes some_out j (queue_from j ys))
  unfolding queue_from since_loop
  since_loop-Front from bytes j some_out [] h = record {
    count = 0;
    within = omega arith;
    progress = inr (inr refl);
    result = ap (λ (k : ℕ). (k, [])) (omega arith);
  }
  since_loop-Front from bytes j some_out (y ∷ ys) h =
      let k = since_loop-Front from (bytes + size y) (suc j) true ys (omega arith) in
      rw (new (suc j) from (omega arith), since_loop)
        (elim (Bool-cases (ltb budget (bytes + size y) && some_out)) [
          | inl e ↦
              rw (e, since_loop)
                (record {
                  count = 0;
                  within = omega arith;
                  progress = inl (&&-right _ _ e);
                  result = ap (λ (n : ℕ). (n, [])) (omega arith);
                })
          | inr e ↦
              rw (e, since_loop)
                (record {
                  count = suc k.count;
                  within = omega (arith, k.within);
                  progress = inr (inl (omega arith));
                  result =
                      ap (λ (r : ℕ × List Event). (r.0, y ∷ r.1)) k.result
                      ∙ ap (λ (n : ℕ). (n, y ∷ take k.count ys)) (omega arith);
                })
        ])

  -- The answer to a number: the front of what is behind it.
  pub since-Front :
      (xs ys : List Event)
      → Front (length xs) false ys (since size budget (length xs) (queue_from 0 (xs ++ ys)))
  unfolding since
  since-Front xs ys =
      rw
        (
          queue_from-append 0 xs ys,
          since_loop-old (length xs) 0 (length xs) 0 false xs (queue_from (0 + length xs) ys)
              (omega arith),
          zero_plus (length xs),
        )
        (since_loop-Front (length xs) 0 (length xs) false ys (omega arith))
    where
      zero_plus : (n : ℕ) → 0 + n ≡ n
      zero_plus n = omega arith
