-- ===== src/Sms/Submit/Delivery.antt =====
-- Every planned part is encoded, fits, and is read back; the texts read are the message.
use mt5700_console.Base.{
  ℕ, suc, ◌≡◌, refl, sym, ap, ◌∙◌, ◌≢◌, false, Option, none, some, List, [], ◌∷◌, ◌++◌, arith,
  some_inj, length, flatten, All, Str, IsUnit16,
}
use mt5700_console.Sms.Gsm7.{needs_ucs2}
use mt5700_console.Sms.Gsm7.Texts.{IsClean}
use mt5700_console.Sms.UserData.{
  Udh, UserData, Encoding, gsm7, ucs2, build_user_data, decode_user_data,
}
use mt5700_console.Sms.UserData.Reads.{
  encoding_code, has_header, header_info, IsCarried, decode_user_data-build_user_data,
}
use mt5700_console.Sms.UserData.Bounds.{IsShort, Fits, build_user_data-Fits}
use mt5700_console.Sms.Submit.{
  Planned, plan_parts, SubmitPart, build_tpdu, tpdu_of, part_of, submit_part, submit_each,
  build_submit_parts,
}
use mt5700_console.Sms.Submit.Parts.{texts, IsShortPart, encoding_of, plan_parts-IsPlan}

-- Code units; and where the message goes in the GSM alphabet, no NUL and no bare ESC.
abbrev pub IsMessage : Str → Type 0
IsMessage s = All IsUnit16 s × (needs_ucs2 s ≡ false → IsClean s)

All-flatten : (P : ℕ → Type 0) (xss : List Str) → All P (flatten xss) → All (All P) xss
All-flatten P [] h = tt
All-flatten P (xs ∷ xss) h = (front xs h, All-flatten P xss (back xs h))
  where
    front : (ys : Str) → All P (ys ++ flatten xss) → All P ys
    front [] h = tt
    front (y ∷ ys) h = (h.0, front ys h.1)

    back : (ys : Str) → All P (ys ++ flatten xss) → All P (flatten xss)
    back [] h = h
    back (y ∷ ys) h = back ys h.1

-- A part is delivered: its user data is built, is small enough for one message, and is read back
-- as the part's text and the numbers of its header, each modulo 256.
abbrev pub IsDelivered : Planned → Type 0
IsDelivered p =
    (ud : UserData) × (build_user_data p.text p.udhi p.encoding ≡ some ud)
    × Fits ud
    × (decode_user_data (has_header p.udhi) (encoding_code p.encoding) ud.udl ud.octets
        ≡ (p.text, header_info p.udhi))

carried :
    (e : Encoding) (u : Option Udh) (s : Str)
    → IsShort e u s
    → All IsUnit16 s
    → (e ≡ gsm7 → IsClean s)
    → IsCarried e s
carried ucs2 u s h hu hc = hu
carried gsm7 none s h hu hc = (hc refl, h.0)
carried gsm7 (some u) s h hu hc = (hc refl, h.0)

delivered :
    (p : Planned)
    → IsShortPart p
    → All IsUnit16 p.text
    → (p.encoding ≡ gsm7 → IsClean p.text)
    → IsDelivered p
delivered p h hu hc =
    let (ud, built, fits) = build_user_data-Fits p.text p.udhi p.encoding h in
    let (ud', built', reads) =
      decode_user_data-build_user_data p.text p.udhi p.encoding
        (carried p.encoding p.udhi p.text h hu hc) in
    let same : ud' ≡ ud = some_inj (sym built' ∙ built) in (ud, built, fits, rw same at reads)

gsm7_covers : (message : Str) → gsm7 ≡ encoding_of message → needs_ucs2 message ≡ false
gsm7_covers message h = ground arith

All-IsDelivered :
    (message : Str) (plan : List Planned)
    → All IsShortPart plan
    → All (λ p. p.encoding ≡ encoding_of message) plan
    → All (All IsUnit16) (texts plan)
    → (needs_ucs2 message ≡ false → All IsClean (texts plan))
    → All IsDelivered plan
All-IsDelivered message [] hs he hu hc = tt
All-IsDelivered message (p ∷ ps) hs he hu hc = (
  delivered p hs.0 hu.0 (λ e. (hc (gsm7_covers message (sym e ∙ he.0))).0),
  All-IsDelivered message ps hs.1 he.1 hu.1 (λ n. (hc n).1),
)

-- For a message of 16-bit code units, without NUL and bare ESC where it goes in the GSM alphabet,
-- every part of its plan gives a user data field that fits and that is read back as the text of the
-- part and, where the part has a header, the three numbers of the header modulo 256; the texts are,
-- one behind the other, the message.
pub plan_parts-IsDelivered :
    (message : Str) (ref : ℕ)
    → IsMessage message
    → All IsDelivered (plan_parts message ref)
      × (flatten (texts (plan_parts message ref)) ≡ message)
plan_parts-IsDelivered message ref h =
    let plan = plan_parts message ref in
    let v = plan_parts-IsPlan message ref in
    (
      All-IsDelivered message plan v.short v.encoded
          (All-flatten IsUnit16 (texts plan) (rw v.joined h.0))
          (λ n. All-flatten (λ x. (x ≢ 0) × (x ≢ 0x1b)) (texts plan) (rw v.joined (h.1 n))),
      v.joined,
    )

build_tpdu_built :
    (destination : Str) (p : Planned) (ud : UserData)
    → build_user_data p.text p.udhi p.encoding ≡ some ud
    → build_tpdu destination p ≡ some (tpdu_of destination p ud)
unfolding build_tpdu
build_tpdu_built destination p ud e = rw (e, build_tpdu) refl

pub submit_part_built :
    (destination smsc : Str) (p : Planned) (ud : UserData)
    → build_user_data p.text p.udhi p.encoding ≡ some ud
    → submit_part destination smsc p ≡ some (part_of smsc (tpdu_of destination p ud))
unfolding submit_part
submit_part_built destination smsc p ud e =
    rw (build_tpdu_built destination p ud e, submit_part) refl

submit_short :
    (destination smsc : Str) (p : Planned)
    → IsShortPart p
    → (part : SubmitPart) × (submit_part destination smsc p ≡ some part)
submit_short destination smsc p h =
    let (ud, built, fits) = build_user_data-Fits p.text p.udhi p.encoding h in
    (part_of smsc (tpdu_of destination p ud), submit_part_built destination smsc p ud built)

submit-All :
    (destination smsc : Str) (plan : List Planned)
    → All IsShortPart plan
    → (parts : List SubmitPart) × (submit_each destination smsc plan ≡ some parts)
      × (length parts ≡ length plan)
unfolding submit_each
submit-All destination smsc [] h = ([], refl, refl)
submit-All destination smsc (p ∷ ps) h =
    let (part, e) = submit_short destination smsc p h.0 in
    let (parts, es, n) = submit-All destination smsc ps h.1 in
    (part ∷ parts, rw (e, es, submit_each) refl, ap suc n)

-- `buildSubmitParts` never throws: for every destination, centre and message it gives a list, with
-- one part for each that is planned.
pub build_submit_parts_total :
    (destination smsc message : Str) (ref : ℕ)
    → (parts : List SubmitPart) × (build_submit_parts destination smsc message ref ≡ some parts)
      × (length parts ≡ length (plan_parts message ref))
unfolding build_submit_parts
build_submit_parts_total destination smsc message ref =
    submit-All destination smsc (plan_parts message ref) (plan_parts-IsPlan message ref).short
