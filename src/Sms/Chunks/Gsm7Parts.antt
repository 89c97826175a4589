-- ===== src/Sms/Chunks/Gsm7Parts.antt =====
-- `gsm7Chunks`: the parts are the whole text, in order, and each fits behind its header.
use mt5700_console.Base.{
  ℕ, ◌+◌, ◌≤◌, ◌≡◌, refl, sym, ap, ◌∙◌, inl, inr, true, false, ◌&&◌, List, [], ◌∷◌, ◌++◌, map,
  append-nil, append_assoc, arith, ltb, Bool-cases, &&-right, flatten, All, flatten-append,
  All-append, Str, is_text,
}
use mt5700_console.Sms.Gsm7.{
  array_from, needs_ucs2, septet_cost, total_septets, total_septets_chars,
}
use mt5700_console.Sms.Chunks.{gsm7_max_udh, gsm7_loop, gsm7_chunks}
use mt5700_console.Sms.Chunks.Covered.{
  HasCode, IsCovered, total_septets-append, total_septets-cons, needs_ucs2-IsCovered,
  array_from-IsCovered,
}

-- A part that the alphabet covers, that is not empty and that leaves room for the header.
pub record IsPart (part : Str) : Type 0 where
  pub covered : IsCovered part
  pub nonempty : is_text part ≡ true
  pub fits : total_septets part ≤ gsm7_max_udh

-- The invariant of the loop, on `chunks`, `tmp` and `tmpS`.
record Inv (chunks : List Str) (tmp : Str) (n : ℕ) : Type 0 where
  parts : All IsPart chunks
  tmp_covered : IsCovered tmp
  count : total_septets tmp ≡ n
  small : n ≤ gsm7_max_udh

cost_le_two : (ch : Str) → septet_cost ch ≤ 2
cost_le_two ch = ground arith

total_septets-single : (x : ℕ) → HasCode x → total_septets (x ∷ []) ≡ septet_cost (x ∷ [])
total_septets-single x h =
    total_septets-cons x [] h ∙ unfold total_septets total_septets_chars array_from in omega arith

extend-Inv :
    (chunks : List Str) (tmp : Str) (n x : ℕ)
    → Inv chunks tmp n
    → HasCode x
    → n + septet_cost (x ∷ []) ≤ gsm7_max_udh
    → Inv chunks (tmp ++ (x ∷ [])) (n + septet_cost (x ∷ []))
extend-Inv chunks tmp n x v h fits = record {
  parts = v.parts;
  tmp_covered = All-append HasCode tmp (x ∷ []) v.tmp_covered (h, tt);
  count =
      omega
        (arith, total_septets-append tmp (x ∷ []) v.tmp_covered, total_septets-single x h, v.count);
  small = fits;
}

cut-Inv :
    (chunks : List Str) (tmp : Str) (n : ℕ)
    → Inv chunks tmp n
    → is_text tmp ≡ true
    → Inv (chunks ++ (tmp ∷ [])) [] 0
cut-Inv chunks tmp n v t = record {
  parts = All-append IsPart chunks (tmp ∷ []) v.parts (
    record { covered = v.tmp_covered; nonempty = t; fits = omega (arith, v.count, v.small) },
    tt,
  );
  tmp_covered = tt;
  count = unfold total_septets total_septets_chars array_from in refl;
  small = omega arith;
}

abbrev Splits : List Str → Str → Type 0
Splits parts message = All IsPart parts × (flatten parts ≡ message)

flatten_cut :
    (chunks : List Str) (tmp s : Str)
    → flatten (chunks ++ (tmp ∷ [])) ++ s ≡ flatten chunks ++ (tmp ++ s)
flatten_cut chunks tmp s = rw flatten-append (simp (append_assoc, append-nil))

room_for_one : (x : ℕ) → 0 + septet_cost (x ∷ []) ≤ gsm7_max_udh
room_for_one x = omega (arith, cost_le_two (x ∷ []))

-- Where the loop does not cut, the character still fits: an empty `tmp` has room for any.
not_cut :
    (chunks : List Str) (tmp : Str) (n x : ℕ)
    → Inv chunks tmp n
    → (ltb gsm7_max_udh (n + septet_cost (x ∷ [])) && is_text tmp) ≡ false
    → n + septet_cost (x ∷ []) ≤ gsm7_max_udh
not_cut chunks [] n x v h =
    let none_yet : total_septets [] ≡ 0 =
      unfold total_septets total_septets_chars array_from in refl in
    omega (arith, v.count, none_yet, room_for_one x)
not_cut chunks (c ∷ tmp) n x v h = below _ h
  where
    below : (k : ℕ) → (ltb gsm7_max_udh k && true) ≡ false → k ≤ gsm7_max_udh
    below k e = ground arith

gsm7_loop-Splits :
    (s : Str) (chunks : List Str) (tmp : Str) (n : ℕ)
    → Inv chunks tmp n
    → IsCovered s
    → Splits (gsm7_loop chunks tmp n (map (λ x. x ∷ []) s)) (flatten chunks ++ (tmp ++ s))
unfolding gsm7_loop
gsm7_loop-Splits [] chunks [] n v h = (v.parts, sym (append-nil (flatten chunks)))
gsm7_loop-Splits [] chunks (c ∷ tmp) n v h = (
  (cut-Inv chunks (c ∷ tmp) n v refl).parts,
  sym (append-nil (flatten (chunks ++ ((c ∷ tmp) ∷ [])))) ∙ flatten_cut chunks (c ∷ tmp) [],
)
gsm7_loop-Splits (x ∷ s) chunks tmp n v h =
    elim (Bool-cases (ltb gsm7_max_udh (n + septet_cost (x ∷ [])) && is_text tmp)) [
      | inl cut ↦
          let cut_inv = cut-Inv chunks tmp n v (&&-right _ _ cut) in
          let v' = extend-Inv (chunks ++ (tmp ∷ [])) [] 0 x cut_inv h.0 (room_for_one x) in
          let ih =
            gsm7_loop-Splits s (chunks ++ (tmp ∷ [])) (x ∷ []) (0 + septet_cost (x ∷ [])) v' h.1 in
          rw (cut, gsm7_loop) (ih.0, ih.1 ∙ flatten_cut chunks tmp (x ∷ s))
      | inr on ↦
          let v' = extend-Inv chunks tmp n x v h.0 (not_cut chunks tmp n x v on) in
          let ih = gsm7_loop-Splits s chunks (tmp ++ (x ∷ [])) (n + septet_cost (x ∷ [])) v' h.1 in
          rw (on, gsm7_loop) (ih.0, ih.1 ∙ ap (◌++◌ (flatten chunks)) (append_assoc tmp (x ∷ []) s))
    ]

-- The parts of a text that the alphabet covers are the whole text, and each fits.
pub gsm7_chunks-Splits :
    (message : Str)
    → needs_ucs2 message ≡ false
    → All IsPart (gsm7_chunks message) × (flatten (gsm7_chunks message) ≡ message)
unfolding gsm7_chunks
gsm7_chunks-Splits message h =
    let covered = needs_ucs2-IsCovered message h in
    rw (array_from-IsCovered message covered) (
      gsm7_loop-Splits message [] [] 0
        (record {
          parts = tt;
          tmp_covered = tt;
          count = unfold total_septets total_septets_chars array_from in refl;
          small = omega arith;
        })
        covered)
