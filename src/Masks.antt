-- ===== src/Masks.antt =====
-- Masks as hexadecimal strings, and what a modem made of one that was written to it: `hexBit`,
-- `normHexForCompare`, `hexMaskSubset` and the branch for masks of `sysCfgApplyCheck` of parse.js.
pub mod Bits
mod Tests
use mt5700_console.Base.{
  ℕ, zero, suc, ◌+◌, ◌-◌, ◌*◌, ◌/◌, ◌%◌, ◌^◌, ◌≤◌, ◌<◌, min, max, ◌≡◌, refl, sym, ap, ap₂, ◌∙◌, ◌≢◌,
  ◌↔◌, ◌⊎◌, inl, inr, Bool, true, false, not, ◌&&◌, ◌||◌, Option, none, some, List, [], ◌∷◌, ◌++◌,
  map, append-nil, append_assoc, arith, ltb, leb, ◌==◌, if◌then◌else◌, ltb→lt, ==_iff, Bool-cases,
  Option-cases, &&-left, &&-right, some_inj, length, get_elem?, get_or, take, drop, replicate,
  flatten, all, All, length-append, take-length-append, drop-length-append, take-append-drop,
  length-take, length-drop, flatten-append, All-append, All-take, All-drop, Str, codes, str_eq,
  str_eq_iff, starts_with, index_of, hex_digit, hex_value, hex_value-hex_digit, hex2, IsByte,
  IsUnit16, is_text,
}
use mt5700_console.Cache.{trim}

abbrev nibble_bit : Option ℕ → ℕ → Bool
nibble_bit none k = false
nibble_bit (some d) k = d / 2 ^ k % 2 == 1

-- `hexBit`: the bit of the digit that stands that many places from the end.
unfoldable pub hex_bit : Str → ℕ → Bool
hex_bit hex_str bit_index =
    let places = bit_index / 4 in
    if leb (length hex_str) places
    then false
    else nibble_bit (hex_value (get_or hex_str (length hex_str - 1 - places) 0)) (bit_index % 4)

abbrev upper : ℕ → ℕ
upper c = if leb 97 c && leb c 122 then c - 32 else c

abbrev is_hex_digit : ℕ → Bool
is_hex_digit c = (leb 48 c && leb c 57) || (leb 65 c && leb c 70)

-- `t.replace(/^0+/, '')`.
unfoldable pub strip_zeros : Str → Str
strip_zeros [] = []
strip_zeros (c ∷ s) = if c == 48 then strip_zeros s else c ∷ s

-- `normHexForCompare`; the empty string is for what is not hexadecimal.
unfoldable pub norm_hex_for_compare : Str → Str
unfolding strip_zeros
norm_hex_for_compare v =
    let t = map upper (trim v) in
    let s = strip_zeros t in
    if is_text t && all is_hex_digit t then (if is_text s then s else 48 ∷ []) else []

-- Does no bit below `n` stand in the second and not in the first?
unfoldable pub bits_within : ℕ → Str → Str → Bool
bits_within zero w g = true
bits_within (suc n) w g = not (hex_bit g n && not (hex_bit w n)) && bits_within n w g

unfoldable pub hex_mask_subset : Str → Str → Bool
unfolding bits_within norm_hex_for_compare
hex_mask_subset want_hex got_hex =
    let w = norm_hex_for_compare want_hex in
    let g = norm_hex_for_compare got_hex in
    is_text w && (is_text g && bits_within (length g * 4) w g)

pub data ApplyState : Type 0 where
  exact clipped rejected unknown : ApplyState

-- The state of a field with a mask, of the value that was written and the value that is read back.
unfoldable pub bitmap_state : Str → Str → ApplyState
unfolding hex_mask_subset
bitmap_state wv av =
    let w = norm_hex_for_compare wv in
    let a = norm_hex_for_compare av in
    if not (is_text av)
    then unknown
    else if not (is_text w) || not (is_text a)
    then unknown
    else if str_eq w a
    then exact
    else if hex_mask_subset wv av
    then clipped
    else rejected
