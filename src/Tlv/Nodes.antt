-- ===== src/Tlv/Nodes.antt =====
-- Where the nodes are that `readTlvAt` finds.
use mt5700_console.Base.{
  ℕ, ◌+◌, ◌-◌, ◌*◌, ◌%◌, ◌≤◌, ◌≡◌, refl, ap, inl, inr, false, ◌||◌, none, some, arith, ltb, ◌==◌,
  Bool-cases, Option-cases, some_inj, length, take, drop, Str,
}
use mt5700_console.Tlv.{Node, node_at, number_at, read_behind_tag, read_length, read_tlv_at}

-- A node of the digits from `i` on: four at least, its value at its end, and all within.
pub record IsNode (hex : Str) (i : ℕ) (n : Node) : Type 0 where
  pub starts : n.start ≡ i
  pub moves : i + 4 ≤ n.value_start
  pub ends : n.stop ≡ n.value_start + 2 * n.value_len
  pub within : n.stop ≤ length hex

read_length-moves : (hex : Str) (j : ℕ) (l : ℕ × ℕ) → read_length hex j ≡ some l → j + 2 ≤ l.1
unfolding read_length
read_length-moves hex j l h =
    let n = number_at hex j 2 % 128 in
    elim (Bool-cases (ltb (length hex) (j + 2))) [
      | inl a ↦ (let q : none ≡ some l = rw (a, read_length) at h in cc)
      | inr a ↦ elim (Bool-cases (ltb (number_at hex j 2) 128)) [
        | inl b ↦
            (let q : some (number_at hex j 2, j + 2) ≡ some l = rw (a, b, read_length) at h in
              omega (arith, ap (λ (p : ℕ × ℕ). p.1) (some_inj q)))
        | inr b ↦ elim (Bool-cases (ltb n 1 || (ltb 2 n || ltb (length hex) (j + 2 + n * 2)))) [
          | inl c ↦ (let q : none ≡ some l = rw (a, b, c, read_length) at h in cc)
          | inr c ↦
              (let q : some (number_at hex (j + 2) (n * 2), j + 2 + n * 2) ≡ some l =
                  rw (a, b, c, read_length) at h in
                omega (arith, ap (λ (p : ℕ × ℕ). p.1) (some_inj q)))
        ]
      ]
    ]

node_at-IsNode :
    (hex tag : Str) (i : ℕ) (l : ℕ × ℕ) (n : Node)
    → i + 4 ≤ l.1
    → node_at hex tag i l ≡ some n
    → IsNode hex i n
unfolding node_at
node_at-IsNode hex tag i l n m h = elim (Bool-cases (ltb (length hex) (l.1 + l.0 * 2))) [
  | inl a ↦ (let q : none ≡ some n = rw (a, node_at) at h in cc)
  | inr a ↦
      rw (← some_inj (rw (a, node_at) at h))
        (record { starts = refl; moves = m; ends = omega arith; within = inside a })
]
  where
    inside : ltb (length hex) (l.1 + l.0 * 2) ≡ false → l.1 + l.0 * 2 ≤ length hex
    inside e = ground arith

read_behind_tag-IsNode :
    (hex : Str) (i j : ℕ) (n : Node) → i + 2 ≤ j → read_behind_tag hex i j ≡ some n → IsNode hex i n
unfolding read_behind_tag
read_behind_tag-IsNode hex i j n m h = elim (Option-cases (read_length hex j)) [
  | inl e ↦ (let q : none ≡ some n = rw (e, read_behind_tag) at h in cc)
  | inr (l, e) ↦
      node_at-IsNode hex (take (j - i) (drop i hex)) i l n
        (omega (arith, m, read_length-moves hex j l e)) (rw (e, read_behind_tag) at h)
]

-- A node that is found lies behind its position, four digits at least, and within the string, and
-- its end is the end of its value.
pub read_tlv_at-IsNode :
    (hex : Str) (i : ℕ) (n : Node) → read_tlv_at hex i ≡ some n → IsNode hex i n
unfolding read_tlv_at
read_tlv_at-IsNode hex i n h = elim (Bool-cases (ltb (length hex) (i + 4))) [
  | inl a ↦ (let q : none ≡ some n = rw (a, read_tlv_at) at h in cc)
  | inr a ↦ elim (Bool-cases (number_at hex i 2 % 32 == 31)) [
    | inr b ↦ read_behind_tag-IsNode hex i (i + 2) n (omega arith) (rw (a, b, read_tlv_at) at h)
    | inl b ↦ elim (Bool-cases (ltb (length hex) (i + 6))) [
      | inl c ↦ (let q : none ≡ some n = rw (a, b, c, read_tlv_at) at h in cc)
      | inr c ↦
          read_behind_tag-IsNode hex i (i + 4) n (omega arith) (rw (a, b, c, read_tlv_at) at h)
    ]
  ]
]
