-- ===== src/Esim/Utf8.antt =====
-- UTF-8: `utf8ToBytes` of euicc.js and the loop of `utf8FromBytes` for where there is no
-- TextDecoder, and the names of profiles: `buildSetNickname`, `setNickname`.
pub mod Points
pub mod RoundTrip
use mt5700_console.Base.{
  ℕ, zero, suc, ◌+◌, ◌-◌, ◌*◌, ◌/◌, ◌%◌, ◌^◌, ◌≤◌, ◌<◌, min, max, ◌≡◌, refl, sym, ap, ap₂, ◌∙◌, ◌≢◌,
  ◌↔◌, ◌⊎◌, inl, inr, Bool, true, false, not, ◌&&◌, ◌||◌, Option, none, some, List, [], ◌∷◌, ◌++◌,
  map, append-nil, append_assoc, arith, ltb, leb, ◌==◌, if◌then◌else◌, ltb→lt, ==_iff, Bool-cases,
  Option-cases, Sum-cases, inr_inj, not-true, &&-left, &&-right, some_inj, length, get_elem?,
  get_or, take, drop, replicate, flatten, all, All, length-append, take-length-append,
  drop-length-append, take-append-drop, length-take, length-drop, flatten-append, All-append,
  All-take, All-drop, Str, codes, str_eq, str_eq_iff, starts_with, index_of, hex_digit, hex_value,
  hex_value-hex_digit, hex2, IsByte, IsUnit16, is_text,
}
use mt5700_console.Esim.{Code, bad_apdu, op_failed, Failure, failure, Transport, Modem, M}
use mt5700_console.Esim.Apdus.{bytes_to_hex, store_data_of}
use mt5700_console.Esim.Exchange.{Collected}
use mt5700_console.Esim.Session.{
  Script, fail, ask, then_with, Ping, with_isdr_session, Outcome, by_result,
}
use mt5700_console.Tlv.{is_hex}

abbrev pub two_bytes : ℕ → List ℕ
two_bytes c = (0xc0 + c / 64) ∷ (0x80 + c % 64) ∷ []

abbrev pub three_bytes : ℕ → List ℕ
three_bytes c = (0xe0 + c / 4096) ∷ (0x80 + c / 64 % 64) ∷ (0x80 + c % 64) ∷ []

abbrev pub four_bytes : ℕ → List ℕ
four_bytes cp =
    (0xf0 + cp / 262144) ∷ (0x80 + cp / 4096 % 64) ∷ (0x80 + cp / 64 % 64) ∷ (0x80 + cp % 64) ∷ []

abbrev pub is_high : ℕ → Bool
is_high c = leb 0xd800 c && leb c 0xdbff

-- The code point of two halves.
abbrev pub code_point : ℕ → ℕ → ℕ
code_point c d = 0x10000 + c % 1024 * 1024 + d % 1024

unfoldable pub single : ℕ → List ℕ
single c = if ltb c 0x80 then c ∷ [] else if ltb c 0x800 then two_bytes c else three_bytes c

-- `utf8ToBytes`; the code unit behind the last is NaN, which counts as 0.
unfoldable pub utf8_to_bytes : Str → List ℕ
unfolding single
utf8_to_bytes [] = []
utf8_to_bytes (c ∷ []) = if is_high c then four_bytes (code_point c 0) else single c
utf8_to_bytes (c ∷ d ∷ s) =
    let next = utf8_to_bytes (d ∷ s) in
    let behind = utf8_to_bytes s in
    if is_high c then four_bytes (code_point c d) ++ behind else single c ++ next

-- How many octets are read at an octet.
unfoldable pub octets_at : ℕ → ℕ
octets_at c =
    if ltb c 0x80
    then 1
    else if leb 0xc0 c && ltb c 0xe0
    then 2
    else if leb 0xe0 c && ltb c 0xf0
    then 3
    else if leb 0xf0 c
    then 4
    else 1

-- The code point of four octets.
abbrev pub point_of : ℕ → List ℕ → ℕ
point_of c s =
    c % 8 * 262144 + get_or s 0 0 % 64 * 4096 + get_or s 1 0 % 64 * 64 + get_or s 2 0 % 64

-- The code units that are made of an octet and those behind it; a missing octet is 0. In the last
-- case the two halves of `cp - 0x10000` are those of `cp`, the upper one less 64.
unfoldable pub units_at : ℕ → List ℕ → Str
units_at c s =
    if ltb c 0x80
    then c ∷ []
    else if leb 0xc0 c && ltb c 0xe0
    then (c % 32 * 64 + get_or s 0 0 % 64) ∷ []
    else if leb 0xe0 c && ltb c 0xf0
    then (c % 16 * 4096 + get_or s 0 0 % 64 * 64 + get_or s 1 0 % 64) ∷ []
    else if leb 0xf0 c
    then (0xd800 - 64 + point_of c s / 1024) ∷ (0xdc00 + point_of c s % 1024) ∷ []
    else 0xfffd ∷ []

-- The loop of `utf8FromBytes`, on fuel; each round takes an octet at least.
unfoldable pub utf8_loop : ℕ → List ℕ → Str
unfolding octets_at units_at
utf8_loop zero b = []
utf8_loop (suc fuel) [] = []
utf8_loop (suc fuel) (c ∷ s) = units_at c s ++ utf8_loop fuel (drop (octets_at c - 1) s)

unfoldable pub utf8_from_bytes : List ℕ → Str
utf8_from_bytes b = utf8_loop (length b) b

-- A nickname is a string of 16-bit code units.
unfoldable pub build_set_nickname : ℕ → Str → Str → Code ⊎ Str
build_set_nickname ch iccid nickname =
    let nb = utf8_to_bytes nickname in
    if not (is_hex iccid) || not (length iccid == 20)
    then inl bad_apdu
    else if ltb 64 (length nb)
    then inl op_failed
    else store_data_of ch (
        codes "BF29"
        ++ (hex2 (14 + length nb)
            ++ (codes "5A0A" ++ (iccid ++ (codes "90" ++ (hex2 (length nb) ++ bytes_to_hex nb))))))

unfoldable pub nickname_script : Str → Str → ℕ → Ping → Script Outcome
nickname_script iccid nickname ch ping = elim (build_set_nickname ch iccid nickname) [
  | inl e ↦ fail (failure e)
  | inr apdu ↦ ask apdu (then_with by_result)
]

-- `setNickname`; of the outcome it gives the status word.
unfoldable pub set_nickname : Modem → Transport → Str → Str → M Outcome
set_nickname modem t iccid nickname = with_isdr_session modem t (nickname_script iccid nickname)
