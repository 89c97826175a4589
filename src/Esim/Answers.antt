-- ===== src/Esim/Answers.antt =====
-- The answers of the modem to the commands of euicc.js: `parseCsimAnswer`, `parseCglaAnswer`,
-- `atFailure`, and the levels of `swInfo`.

pub mod Printed
use mt5700_console.Base.{
  ℕ, zero, suc, ◌+◌, ◌-◌, ◌*◌, ◌/◌, ◌%◌, ◌^◌, ◌≤◌, ◌<◌, min, max, ◌≡◌, refl, sym, ap, ap₂, ◌∙◌, ◌≢◌,
  ◌↔◌, ◌⊎◌, inl, inr, Bool, true, false, not, ◌&&◌, ◌||◌, Option, none, some, List, [], ◌∷◌, ◌++◌,
  map, append-nil, append_assoc, arith, ltb, leb, ◌==◌, if◌then◌else◌, ltb→lt, ==_iff, Bool-cases,
  Option-cases, &&-left, &&-right, some_inj, length, get_elem?, get_or, take, drop, replicate,
  flatten, all, All, length-append, take-length-append, drop-length-append, take-append-drop,
  length-take, length-drop, flatten-append, All-append, All-take, All-drop, Str, codes, str_eq,
  str_eq_iff, starts_with, index_of, hex_digit, hex_value, hex_value-hex_digit, hex2, IsByte,
  IsUnit16, is_text,
}
use mt5700_console.Esim.{Transport, csim, cgla, Reply, Code}
use mt5700_console.Esim.Texts.{search_text, line_at, cme_at, quoted_hex, maybe_quoted_hex}
use mt5700_console.Tlv.{hex_number}

-- What a card answered: its octets in hexadecimal, its status word, and how many octets wait.
pub record Apdu : Type 0 where
  pub content : Str
  pub sw : Str
  pub has_more : Bool
  pub le : ℕ

-- The last four digits are the status word.
unfoldable pub apdu_of : Str → Apdu
apdu_of hex =
    let n = length hex - 4 in
    let sw = drop n hex in
    if ltb (length hex) 4
    then record { content = hex; sw = []; has_more = false; le = 0 }
    else record {
      content = take n hex;
      sw = sw;
      has_more = starts_with (codes "61") sw;
      le = hex_number 0 (drop 2 sw);
    }

unfoldable pub parse_csim_answer : Str → Option Apdu
parse_csim_answer text = elim (search_text (line_at (codes "+CSIM:") quoted_hex) text) [
  | none ↦ none
  | some hex ↦ some (apdu_of hex)
]

unfoldable pub parse_cgla_answer : Str → Option Apdu
parse_cgla_answer text = elim (search_text (line_at (codes "+CGLA:") maybe_quoted_hex) text) [
  | none ↦ none
  | some hex ↦ some (apdu_of hex)
]

abbrev pub text_of : Reply → Str
text_of r = elim r.text [ none ↦ [] | some t ↦ t ]

unfoldable pub parse_apdu_answer : Transport → Str → Option Apdu
unfolding parse_csim_answer parse_cgla_answer
parse_apdu_answer csim text = parse_csim_answer text
parse_apdu_answer cgla text = parse_cgla_answer text

pub data AtFailure : Type 0 where
  fine busy no_card transport failed empty : AtFailure
  cme : Str → AtFailure

unfoldable pub cme_failure : Str → AtFailure
cme_failure code =
    if str_eq code (codes "14") || str_eq code (codes "515")
    then busy
    else if str_eq code (codes "10") || str_eq code (codes "13")
    then no_card
    else cme code

unfoldable pub at_failure : Reply → AtFailure
unfolding cme_failure
at_failure r = if r.success then fine else elim (search_text cme_at (text_of r)) [
  | some code ↦ cme_failure code
  | none ↦ elim (index_of (text_of r) (codes "ERROR")) [
    | some i ↦ transport
    | none ↦ if is_text r.error then failed else empty
  ]
]

-- The `level` of `swInfo`.
pub data Level : Type 0 where
  ok warn more error fatal : Level

-- `swInfo(sw).level`, which is what the code branches on.
unfoldable pub sw_level : Str → Level
sw_level sw =
    if not (length sw == 4)
    then error
    else if str_eq sw (codes "9000")
    then ok
    else if starts_with (codes "9") sw
    then warn
    else if starts_with (codes "61") sw
    then more
    else if str_eq sw (codes "6283") || starts_with (codes "62") sw
    then warn
    else if str_eq sw (codes "6985") || str_eq sw (codes "6A80")
    then error
    else if str_eq sw (codes "6A82")
    then fatal
    else if str_eq sw (codes "6A88") || (str_eq sw (codes "6881") || str_eq sw (codes "6A81"))
    then error
    else if str_eq sw (codes "6E00") || str_eq sw (codes "6D00")
    then fatal
    else error

unfoldable pub is_channel_unsupported_sw : Str → Bool
is_channel_unsupported_sw sw = str_eq sw (codes "6881") || str_eq sw (codes "6A81")

unfoldable pub is_card_blocked_sw : Str → Option ℕ → Bool
is_card_blocked_sw sw ch =
    str_eq sw (codes "6999")
    || (str_eq sw (codes "6985") && elim ch [ none ↦ false | some c ↦ c == 0 ])
