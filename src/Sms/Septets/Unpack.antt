-- ===== src/Sms/Septets/Unpack.antt =====
-- `unpackSeptets` of parse.js reads groups of seven bits from the stream of its octets.
use mt5700_console.Base.{
  ℕ, zero, suc, ◌+◌, ◌-◌, ◌*◌, ◌/◌, ◌%◌, ◌^◌, ◌≤◌, ◌<◌, ◌&&◌, ◌⊎◌, inl, inr, List, [], ◌∷◌, ◌++◌,
  ◌≡◌, refl, sym, ap, ◌∙◌, arith, leb, ltb, length, All, IsByte, length-append, append_assoc,
  append-nil, Bool-cases,
}
use mathlib.Core.Path.{ap₂}
use native.Mathlib.Numerals.{towards_suc}
use mt5700_console.Base.Bits.{bits_of, bits_of-append}
use mt5700_console.Sms.Septets.{unpack_while, unpack_loop, unpack_septets}
use mt5700_console.Sms.Septets.Stream.{group7, stream, group7-bits_of, group7_short}

-- What the inner loop leaves for the rest of the stream.
record Leaves (count : ℕ) (out : List ℕ) (acc bits : ℕ) (r : List ℕ × ℕ × ℕ) : Type 0 where
  small : r.1 < 2 ^ r.2
  ends : (r.2 < 7) ⊎ (count ≤ length r.0)
  same :
      (xs : List ℕ)
      → r.0 ++ group7 (count - length r.0) (bits_of r.2 r.1 ++ xs)
        ≡ out ++ group7 (count - length out) (bits_of bits acc ++ xs)

pow_seven : (m : ℕ) → 2 ^ (m + 7) ≡ 128 * 2 ^ m
pow_seven m = simp towards_suc (omega arith)

take_seven :
    (count : ℕ) (out : List ℕ) (acc bits : ℕ) (xs : List ℕ)
    → 7 ≤ bits
    → length out < count
    → (out ++ (acc % 128 ∷ []))
        ++ group7 (count - length (out ++ (acc % 128 ∷ []))) (bits_of (bits - 7) (acc / 128) ++ xs)
      ≡ out ++ group7 (count - length out) (bits_of bits acc ++ xs)
take_seven count out acc bits xs hb hc =
    let m = bits - 7 in
    let n = count - length out - 1 in
    let left : count - length (out ++ (acc % 128 ∷ [])) ≡ n =
      omega (arith, length-append out (acc % 128 ∷ [])) in
    let width : bits ≡ suc (suc (suc (suc (suc (suc (suc m)))))) = omega arith in
    let room : count - length out ≡ suc n = omega arith in
    rw (append_assoc, left)
      (ap (◌++◌ out) (
        sym (group7-bits_of n m acc xs)
        ∙ ap₂ (λ (k b : ℕ). group7 k (bits_of b acc ++ xs)) (sym room) (sym width)))

acc_shrinks : (acc bits : ℕ) → 7 ≤ bits → acc < 2 ^ bits → acc / 128 < 2 ^ (bits - 7)
acc_shrinks acc bits h ha =
    let width : bits ≡ bits - 7 + 7 = omega arith in
    omega (arith, pow_seven (bits - 7), ap (λ (t : ℕ). 2 ^ t) width)

unpack_while-Leaves :
    (fuel count : ℕ) (out : List ℕ) (acc bits : ℕ)
    → bits ≤ fuel
    → acc < 2 ^ bits
    → Leaves count out acc bits (unpack_while fuel count out acc bits)
unfolding unpack_while
unpack_while-Leaves zero count out acc bits hf ha = record {
  small = ha;
  ends = inl (omega arith);
  same = λ xs. refl;
}
unpack_while-Leaves (suc fuel) count out acc bits hf ha =
    elim (Bool-cases (leb 7 bits && ltb (length out) count)) [
      | inl go ↦
          let hb : 7 ≤ bits = ground arith in
          let hc : length out < count = ground arith in
          let ih =
            unpack_while-Leaves fuel count (out ++ (acc % 128 ∷ [])) (acc / 128) (bits - 7)
              (omega arith) (acc_shrinks acc bits hb ha) in
          rw (go, unpack_while)
            (record {
              small = ih.small;
              ends = ih.ends;
              same = λ xs. ih.same xs ∙ take_seven count out acc bits xs hb hc;
            })
      | inr stop ↦
          rw (stop, unpack_while) (record { small = ha; ends = ground arith; same = λ xs. refl })
    ]

group7_done :
    (count : ℕ) (out xs : List ℕ) → count ≤ length out → out ++ group7 (count - length out) xs ≡ out
unfolding group7
group7_done count out xs h =
    let full : count - length out ≡ 0 = omega arith in rw full (append-nil out)

group7_pending :
    (count : ℕ) (out : List ℕ) (acc bits : ℕ)
    → (bits < 7) ⊎ (count ≤ length out)
    → out ++ group7 (count - length out) (bits_of bits acc ++ []) ≡ out
group7_pending count out acc bits (inl h) =
    rw (append-nil, group7_short (count - length out) bits acc h) (append-nil out)
group7_pending count out acc bits (inr h) = group7_done count out (bits_of bits acc ++ []) h

pow_eight : (m : ℕ) → 2 ^ (m + 8) ≡ 256 * 2 ^ m
pow_eight m = simp towards_suc (omega arith)

acc_grows : (acc bits d : ℕ) → acc < 2 ^ bits → d < 256 → acc + d * 2 ^ bits < 2 ^ (bits + 8)
acc_grows acc bits d ha hd = grind (arith, pow_eight bits)

-- The unpacker reads groups of seven bits from what is pending and the octets that follow.
unpack_loop-group7 :
    (count : ℕ) (out : List ℕ) (acc bits : ℕ) (ds : List ℕ)
    → All IsByte ds
    → acc < 2 ^ bits
    → (bits < 7) ⊎ (count ≤ length out)
    → unpack_loop count out acc bits ds
      ≡ out ++ group7 (count - length out) (bits_of bits acc ++ stream 8 ds)
unfolding unpack_loop
unpack_loop-group7 count out acc bits [] hd ha hb = sym (group7_pending count out acc bits hb)
unpack_loop-group7 count out acc bits (d ∷ ds) hd ha hb =
    elim (Bool-cases (ltb (length out) count)) [
      | inl more ↦
          let v = acc + d * 2 ^ bits in
          let r = unpack_while (bits + 8) count out v (bits + 8) in
          let left =
            unpack_while-Leaves (bits + 8) count out v (bits + 8) (omega arith)
              (acc_grows acc bits d ha hd.0) in
          rw more (
            unpack_loop-group7 count r.0 r.1 r.2 ds hd.1 left.small left.ends
            ∙ left.same (stream 8 ds)
            ∙ rw (← append_assoc, bits_of-append bits 8 acc d ha) refl)
      | inr full ↦
          rw full
            (sym (group7_done count out (bits_of bits acc ++ stream 8 (d ∷ ds)) (ground arith)))
    ]

pub unpack_septets-group7 :
    (ds : List ℕ) (count : ℕ) → All IsByte ds → unpack_septets ds count ≡ group7 count (stream 8 ds)
unfolding unpack_septets bits_of
unpack_septets-group7 ds count h =
    unpack_loop-group7 count [] 0 0 ds h (omega arith) (inl (omega arith))
    ∙ ap (λ (k : ℕ). group7 k (stream 8 ds)) (omega arith)
