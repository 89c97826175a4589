-- ===== src/Tlv/Packages.antt =====
-- A profile package in segments, and a segment in commands: `tlvChildren`, `tlvFindChild`,
-- `splitBoundProfilePackage`, and the cut of `buildEs10bRawChunks`.
pub mod Joined
use mt5700_console.Base.{
  ℕ, zero, suc, ◌+◌, ◌-◌, ◌*◌, ◌/◌, ◌%◌, ◌^◌, ◌≤◌, ◌<◌, min, max, ◌≡◌, refl, sym, ap, ap₂, ◌∙◌, ◌≢◌,
  ◌↔◌, ◌⊎◌, inl, inr, Bool, true, false, not, ◌&&◌, ◌||◌, Option, none, some, List, [], ◌∷◌, ◌++◌,
  map, append-nil, append_assoc, arith, ltb, leb, ◌==◌, if◌then◌else◌, ltb→lt, ==_iff, Bool-cases,
  Option-cases, &&-left, &&-right, some_inj, length, get_elem?, get_or, take, drop, replicate,
  flatten, all, All, length-append, take-length-append, drop-length-append, take-append-drop,
  length-take, length-drop, flatten-append, All-append, All-take, All-drop, Str, codes, str_eq,
  str_eq_iff, starts_with, index_of, hex_digit, hex_value, hex_value-hex_digit, hex2, IsByte,
  IsUnit16, is_text,
}
use mt5700_console.Tlv.{Node, TlvError, bad_apdu, bad_hex, is_hex, read_tlv_at}

-- The loop of `tlvChildren`, from a digit on; each node has four digits at least.
unfoldable pub children_loop : ℕ → Str → ℕ → ℕ → List Node
children_loop zero hex stop i = []
children_loop (suc fuel) hex stop i = elim (read_tlv_at hex i) [
  | none ↦ []
  | some c ↦
      let rest = children_loop fuel hex stop c.stop in
      if ltb stop (i + 4) || ltb stop c.stop then [] else c ∷ rest
]

unfoldable pub tlv_children : Str → Node → List Node
unfolding children_loop
tlv_children hex node = children_loop (length hex) hex node.stop node.value_start

unfoldable pub find_tag : Str → List Node → Option Node
find_tag tag [] = none
find_tag tag (n ∷ ns) = let rest = find_tag tag ns in if str_eq n.tag tag then some n else rest

unfoldable pub tlv_find_child : Str → Node → Str → Option Node
unfolding tlv_children find_tag
tlv_find_child hex node tag = find_tag tag (tlv_children hex node)

-- `hex.slice(a, b)`.
abbrev pub slice : Str → ℕ → ℕ → Str
slice hex a b = take (b - a) (drop a hex)

abbrev pub whole_node : Str → Node → Str
whole_node hex n = slice hex n.start n.stop

-- The segments of a child that is sent whole, where it is there.
abbrev pub whole_segment : Str → Option Node → List Str
whole_segment hex none = []
whole_segment hex (some n) = whole_node hex n ∷ []

-- The segments of a container: its head alone, then each of its children.
abbrev pub container_segments : Str → Option Node → List Str
container_segments hex none = []
container_segments hex (some n) =
    slice hex n.start n.value_start ∷ map (λ c. whole_node hex c) (tlv_children hex n)

-- The `hex` of the segments; their labels go into the log only.
unfoldable pub segments_of : Str → Node → TlvError ⊎ List Str
unfolding tlv_find_child
segments_of hex outer = elim (tlv_find_child hex outer (codes "BF23")) [
  | none ↦ inl bad_apdu
  | some bf23 ↦ elim (tlv_find_child hex outer (codes "A3")) [
    | none ↦ inl bad_apdu
    | some a3 ↦ inr (
        slice hex 0 bf23.stop
        ∷ (whole_segment hex (tlv_find_child hex outer (codes "A0"))
            ++ (container_segments hex (tlv_find_child hex outer (codes "A1"))
                ++ (whole_segment hex (tlv_find_child hex outer (codes "A2"))
                    ++ container_segments hex (some a3)))))
  ]
]

unfoldable pub split_bound_profile_package : Str → TlvError ⊎ List Str
unfolding segments_of
split_bound_profile_package bpp =
    if not (is_hex bpp) then inl bad_hex else elim (read_tlv_at bpp 0) [
      | none ↦ inl bad_apdu
      | some outer ↦ if str_eq outer.tag (codes "BF36") then segments_of bpp outer else inl bad_apdu
    ]

unfoldable pub chunk_limit : ℕ → ℕ
chunk_limit mss = if ltb 0 mss && leb mss 240 then mss else 120

-- The loop that cuts; each round takes two digits at least.
unfoldable pub cut_chunks : ℕ → ℕ → Str → List Str
cut_chunks zero limit hex = []
cut_chunks (suc fuel) limit [] = []
cut_chunks (suc fuel) limit (c ∷ hex) =
    take (limit * 2) (c ∷ hex) ∷ cut_chunks fuel limit (drop (limit * 2) (c ∷ hex))

-- What `storeDataApdu` is called with.
pub record StoreData : Type 0 where
  pub payload : Str
  pub p1 : ℕ
  pub p2 : ℕ

-- `chunks.map`, from the index `idx` on.
unfoldable pub number_chunks : ℕ → List Str → List StoreData
number_chunks idx [] = []
number_chunks idx (c ∷ []) = record { payload = c; p1 = 0x91; p2 = idx % 256 } ∷ []
number_chunks idx (c ∷ d ∷ cs) =
    record { payload = c; p1 = 0x11; p2 = idx % 256 } ∷ number_chunks (idx + 1) (d ∷ cs)

-- The parts that `buildEs10bRawChunks` makes commands of.
unfoldable pub plan_chunks : Str → ℕ → List StoreData
unfolding cut_chunks number_chunks chunk_limit
plan_chunks hex mss = number_chunks 0 (cut_chunks (length hex) (chunk_limit mss) hex)
