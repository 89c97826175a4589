-- ===== src/Locks/Limits.antt =====
-- What the lists of a lock command hold.
use mt5700_console.Base.{
  ℕ, ◌+◌, ◌*◌, ◌-◌, ◌≤◌, ◌≡◌, refl, sym, ap, ap₂, ◌⊎◌, ◌||◌, ◌==◌, ==_iff, ◌++◌, map, length,
  append-nil, append_assoc, ◌≢◌, inl, inr, true, false, ◌&&◌, none, some, List, [], ◌∷◌, arith, ltb,
  leb, Bool-cases, Option-cases, &&-left, &&-right, some_inj, all, All, Str, is_text,
}
use mt5700_console.Cache.{trim}
use mt5700_console.Sms.Commands.{decimal}
use mt5700_console.Locks.{
  Kind, lte, nr, LockItem, LockLists, check_all, check_number, join_commas, lists_of, max_arfcn,
  max_pci, max_lock_items, number_of, to_lock_lists, valid_items, scs_list,
}

-- Decimal digits that stand for a number, read from the left.
pub data Decimal : Str → ℕ → Type 0 where
  none_yet : Decimal [] 0
  digit :
      {s : Str} {n c : ℕ}
      → Decimal s n
      → 48 ≤ c
      → c ≤ 57
      → Decimal (s ++ (c ∷ [])) (n * 10 + (c - 48))

-- One digit at least, and a number within the limit.
abbrev pub IsNumber : ℕ → Str → Type 0
IsNumber limit s = (s ≢ []) × (n : ℕ) × Decimal s n × (n ≤ limit)

digits-All : (s : Str) → all (λ c. leb 48 c && leb c 57) s ≡ true → All (λ c. (48 ≤ c) × (c ≤ 57)) s
digits-All [] h = tt
digits-All (c ∷ s) h = (digit c (&&-left _ _ h), digits-All s (&&-right _ _ h))
  where
    digit : (x : ℕ) → (leb 48 x && leb x 57) ≡ true → (48 ≤ x) × (x ≤ 57)
    digit x e = (ground arith, ground arith)

not_empty : (s : Str) → is_text s ≡ true → s ≢ []
not_empty [] h e = cc
not_empty (c ∷ s) h e = cc

number_of-Decimal :
    (s front : Str) (n : ℕ)
    → Decimal front n
    → All (λ c. (48 ≤ c) × (c ≤ 57)) s
    → Decimal (front ++ s) (number_of n s)
unfolding number_of
number_of-Decimal [] front n d h = rw (append-nil front) d
number_of-Decimal (c ∷ s) front n d ((low, high), h) =
    rw (← append_assoc front (c ∷ []) s)
      (number_of-Decimal s (front ++ (c ∷ [])) (n * 10 + (c - 48)) (digit d low high) h)

check_number-IsNumber :
    (limit : ℕ) (raw s : Str) → check_number limit raw ≡ some s → (s ≡ raw) × IsNumber limit raw
unfolding check_number
check_number-IsNumber limit raw s h =
    elim (Bool-cases (is_text raw && all (λ c. leb 48 c && leb c 57) raw)) [
      | inr a ↦ (let q : none ≡ some s = rw (a, check_number) at h in cc)
      | inl a ↦ elim (Bool-cases (ltb limit (number_of 0 raw))) [
        | inl b ↦ (let q : none ≡ some s = rw (a, b, check_number) at h in cc)
        | inr b ↦
            (let q : some raw ≡ some s = rw (a, b, check_number) at h in
              (
                sym (some_inj q),
                (
                  not_empty raw (&&-left _ _ a),
                  number_of 0 raw,
                  number_of-Decimal raw [] 0 none_yet (digits-All raw (&&-right _ _ a)),
                  inside b,
                ),
              ))
      ]
    ]
  where
    inside : ltb limit (number_of 0 raw) ≡ false → number_of 0 raw ≤ limit
    inside e = ground arith

-- A list that is accepted is the list that was given, and each of its texts is a number within the
-- limit.
check_all-IsNumber :
    (limit : ℕ) (xs ys : List Str)
    → check_all limit xs ≡ some ys
    → (ys ≡ xs) × All (IsNumber limit) ys
unfolding check_all
check_all-IsNumber limit [] ys h = (sym (some_inj h), rw (← some_inj h) tt)
check_all-IsNumber limit (x ∷ xs) ys h = elim (Option-cases (check_number limit x)) [
  | inl e ↦ (let q : none ≡ some ys = rw (e, check_all) at h in cc)
  | inr (y, e) ↦ elim (Option-cases (check_all limit xs)) [
    | inl er ↦ (let q : none ≡ some ys = rw (e, er, check_all) at h in cc)
    | inr (rest, er) ↦
        (let q : some (y ∷ rest) ≡ some ys = rw (e, er, check_all) at h in
          let (same, number) = check_number-IsNumber limit x y e in
          let (more, numbers) = check_all-IsNumber limit xs rest er in
          rw (← some_inj q) (ap₂ ◌∷◌ same more, (rw same number, numbers)))
  ]
]

-- The greatest number of a cell.
abbrev pub greatest_pci : Kind → ℕ
greatest_pci lte = 503
greatest_pci nr = 1007

-- Numbers within a limit, and the list of them that goes into the command.
abbrev pub AreNumbers : ℕ → List Str → Str → Type 0
AreNumbers limit texts joined = All (IsNumber limit) texts × (joined ≡ join_commas texts)

-- What the lists for a lock of channels, or of cells, have to be for the items with a band.
abbrev pub IsChecked : Kind → ℕ → List (ℕ × LockItem) → LockLists → Type 0
IsChecked kind type valid l =
    (l.bands ≡ join_commas (map (λ p. decimal p.0) valid))
    × AreNumbers 4294967295 (map (λ p. trim p.1.arfcn) valid) l.arfcns
    × ((type ≡ 1) × (l.pcis ≡ [])
        ⊎ (type ≢ 1) × AreNumbers (greatest_pci kind) (map (λ p. trim p.1.pci) valid) l.pcis)

accepted :
    (limit : ℕ) (xs ys : List Str)
    → check_all limit xs ≡ some ys
    → AreNumbers limit xs (join_commas ys)
accepted limit xs ys h =
    let (same, numbers) = check_all-IsNumber limit xs ys h in
    (rw (← same) numbers, ap join_commas same)

max_pci-greatest_pci : (kind : Kind) → max_pci kind ≡ greatest_pci kind
max_pci-greatest_pci lte = refl
max_pci-greatest_pci nr = refl

lists_of-IsChecked :
    (kind : Kind) (type : ℕ) (valid : List (ℕ × LockItem)) (l : LockLists)
    → type ≢ 3
    → lists_of kind type valid ≡ some l
    → IsChecked kind type valid l
unfolding lists_of
lists_of-IsChecked kind type valid l h3 h =
    let arfcns = map (λ p. trim p.1.arfcn) valid in
    let pcis = map (λ p. trim p.1.pci) valid in
    elim (Option-cases (check_all max_arfcn arfcns)) [
      | inl e ↦ (let q : none ≡ some l = rw (other type 3 h3, e, lists_of) at h in cc)
      | inr (ys, e) ↦ elim (Bool-cases (type == 1)) [
        | inl one ↦
            let q : some (record {
              bands = join_commas (map (λ p. decimal p.0) valid);
              arfcns = join_commas ys;
              scs_types = scs_list kind valid;
              pcis = [];
            })
                ≡ some l =
              rw (other type 3 h3, e, one, lists_of) at h in
            rw (← some_inj q)
              ((refl, accepted max_arfcn arfcns ys e, inl ((==_iff type 1).0 one, refl)))
        | inr more ↦ elim (Option-cases (check_all (max_pci kind) pcis)) [
          | inl e' ↦
              (let q : none ≡ some l = rw (other type 3 h3, e, more, e', lists_of) at h in cc)
          | inr (zs, e') ↦
              let q : some (record {
                bands = join_commas (map (λ p. decimal p.0) valid);
                arfcns = join_commas ys;
                scs_types = scs_list kind valid;
                pcis = join_commas zs;
              })
                  ≡ some l =
                rw (other type 3 h3, e, more, e', lists_of) at h in
              rw (← some_inj q) (
                (
                  refl,
                  accepted max_arfcn arfcns ys e,
                  inr (
                    unlike type 1 more,
                    rw (← max_pci-greatest_pci kind) (accepted (max_pci kind) pcis zs e'),
                  ),
                ))
        ]
      ]
    ]
  where
    other : (a b : ℕ) → a ≢ b → (a == b) ≡ false
    other a b n = ground arith

    unlike : (a b : ℕ) → (a == b) ≡ false → a ≢ b
    unlike a b h = ground arith

-- For a lock of channels (type 1) or of cells (any other type but 0 and 3): where the lists are
-- made, they are those of the items with a band, 1 to 20 of them. Each channel is a decimal number
-- up to 4294967295 and, for a lock of cells, each cell is one up to 503 for LTE and 1007 for NR.
pub to_lock_lists-IsChecked :
    (kind : Kind) (type : ℕ) (items : List LockItem) (l : LockLists)
    → type ≢ 0
    → type ≢ 3
    → to_lock_lists kind type items ≡ some l
    → (1 ≤ length (valid_items items))
      × (length (valid_items items) ≤ 20)
      × IsChecked kind type (valid_items items) l
unfolding to_lock_lists
to_lock_lists-IsChecked kind type items l h0 h3 h =
    let n = length (valid_items items) in
    elim (Bool-cases (n == 0 || ltb max_lock_items n)) [
      | inl e ↦ (let q : none ≡ some l = rw (set type h0, e, to_lock_lists) at h in cc)
      | inr e ↦
          let q : lists_of kind type (valid_items items) ≡ some l =
            rw (set type h0, e, to_lock_lists) at h in
          (at_least n e, at_most n e, lists_of-IsChecked kind type (valid_items items) l h3 q)
    ]
  where
    set : (a : ℕ) → a ≢ 0 → (a == 0) ≡ false
    set a n = ground arith

    at_least : (n : ℕ) → (n == 0 || ltb 20 n) ≡ false → 1 ≤ n
    at_least n e = ground arith

    at_most : (n : ℕ) → (n == 0 || ltb 20 n) ≡ false → n ≤ 20
    at_most n e = ground arith
