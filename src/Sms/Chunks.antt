-- ===== src/Sms/Chunks.antt =====
-- The parts of a long message: `gsm7Chunks`, `ucs2Chunks` and `messageStats` of smsEncode.js.
pub mod Covered
pub mod Ucs2Parts
pub mod Gsm7Parts
use mt5700_console.Base.{
  ℕ, zero, suc, ◌+◌, ◌-◌, ◌*◌, ◌/◌, ◌%◌, ◌^◌, ◌≤◌, ◌<◌, min, max, ◌≡◌, refl, sym, ap, ap₂, ◌∙◌, ◌≢◌,
  ◌↔◌, ◌⊎◌, inl, inr, Bool, true, false, not, ◌&&◌, ◌||◌, Option, none, some, List, [], ◌∷◌, ◌++◌,
  map, append-nil, append_assoc, arith, ltb, leb, ◌==◌, if◌then◌else◌, ltb→lt, ==_iff, Bool-cases,
  Option-cases, &&-left, &&-right, some_inj, length, get_elem?, get_or, take, drop, replicate,
  flatten, all, All, length-append, take-length-append, drop-length-append, take-append-drop,
  length-take, length-drop, flatten-append, All-append, All-take, All-drop, Str, codes, str_eq,
  str_eq_iff, starts_with, index_of, hex_digit, hex_value, hex_value-hex_digit, hex2, IsByte,
  IsUnit16, is_text,
}
use mt5700_console.Sms.Gsm7.{
  array_from, is_high_surrogate, is_low_surrogate, needs_ucs2, septet_cost, total_septets,
}
use mt5700_console.Sms.UserData.{Encoding, gsm7, ucs2}

abbrev pub gsm7_max : ℕ
gsm7_max = 160

abbrev pub gsm7_max_udh : ℕ
gsm7_max_udh = 153

abbrev pub ucs2_max : ℕ
ucs2_max = 140

abbrev pub ucs2_max_udh : ℕ
ucs2_max_udh = 134

abbrev push_text : List Str → Str → List Str
push_text chunks tmp = if is_text tmp then chunks ++ (tmp ∷ []) else chunks

-- The loop of `gsm7Chunks` on its variables `chunks`, `tmp` and `tmpS`.
unfoldable pub gsm7_loop : List Str → Str → ℕ → List Str → List Str
gsm7_loop chunks tmp tmp_s [] = push_text chunks tmp
gsm7_loop chunks tmp tmp_s (ch ∷ chs) =
    let s = septet_cost ch in
    let cut = ltb gsm7_max_udh (tmp_s + s) && is_text tmp in
    gsm7_loop (if cut then chunks ++ (tmp ∷ []) else chunks) ((if cut then [] else tmp) ++ ch)
      ((if cut then 0 else tmp_s) + s) chs

unfoldable pub gsm7_chunks : Str → List Str
unfolding gsm7_loop
gsm7_chunks message = gsm7_loop [] [] 0 (array_from message)

-- `end - start` of one round of `ucs2Chunks`, on what is left of the message.
unfoldable pub ucs2_end : Str → ℕ
ucs2_end rest =
    let end = min (ucs2_max_udh / 2) (length rest) in
    if ltb end (length rest)
      && (is_high_surrogate (get_or rest (end - 1) 0) && is_low_surrogate (get_or rest end 0))
    then end - 1
    else end

-- The loop of `ucs2Chunks` on `message.slice(start)`. Each round takes at least one unit.
unfoldable pub ucs2_loop : ℕ → Str → List Str
unfolding ucs2_end
ucs2_loop zero rest = []
ucs2_loop (suc fuel) [] = []
ucs2_loop (suc fuel) (c ∷ rest) =
    let end = ucs2_end (c ∷ rest) in take end (c ∷ rest) ∷ ucs2_loop fuel (drop end (c ∷ rest))

unfoldable pub ucs2_chunks : Str → List Str
unfolding ucs2_loop
ucs2_chunks message = ucs2_loop (length message) message

-- `septets` stands in the answer for the GSM alphabet only.
pub record MessageStats : Type 0 where
  pub encoding : Encoding
  pub parts : ℕ
  pub chars : ℕ
  pub septets : Option ℕ

unfoldable pub message_stats : Str → MessageStats
message_stats [] = record { encoding = gsm7; parts = 0; chars = 0; septets = none }
message_stats (c ∷ s) =
    let message = c ∷ s in
    let chars = length (array_from message) in
    let septets = total_septets message in
    if not (needs_ucs2 message)
    then record {
      encoding = gsm7;
      parts = if leb septets gsm7_max then 1 else length (gsm7_chunks message);
      chars = chars;
      septets = some septets;
    }
    else record {
      encoding = ucs2;
      parts = if leb (length message) (ucs2_max / 2) then 1 else length (ucs2_chunks message);
      chars = chars;
      septets = none;
    }
