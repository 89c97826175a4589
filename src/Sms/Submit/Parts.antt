-- ===== src/Sms/Submit/Parts.antt =====
-- The parts that `buildSubmitParts` plans: their texts, their numbers and their sizes.
use mt5700_console.Base.{
  ℕ, suc, ◌+◌, ◌/◌, ◌≡◌, refl, ap, ◌∙◌, ◌⊎◌, inl, inr, true, false, none, some, List, [], ◌∷◌,
  append-nil, arith, leb, if◌then◌else◌, Bool-cases, length, flatten, All, Str,
}
use mt5700_console.Sms.Gsm7.{needs_ucs2, total_septets}
use mt5700_console.Sms.UserData.{Encoding, gsm7, ucs2}
use mt5700_console.Sms.UserData.Bounds.{IsShort}
use mt5700_console.Sms.Chunks.{gsm7_max, ucs2_max, gsm7_chunks, ucs2_chunks}
use mt5700_console.Sms.Chunks.Covered.{IsCovered-needs_ucs2}
use mt5700_console.Sms.Chunks.Gsm7Parts.{gsm7_chunks-Splits}
use mt5700_console.Sms.Chunks.Gsm7Parts
use mt5700_console.Sms.Chunks.Ucs2Parts.{ucs2_chunks-Splits}
use mt5700_console.Sms.Chunks.Ucs2Parts
use mt5700_console.Sms.Submit.{Planned, number_parts, whole, plan_parts}

abbrev pub texts : List Planned → List Str
texts [] = []
texts (p ∷ ps) = p.text ∷ texts ps

-- The sequence numbers run from `i + 1`, and each part says how many there are.
abbrev pub IsNumbered : ℕ → ℕ → ℕ → List Planned → Type 0
IsNumbered ref total i [] = total ≡ i
IsNumbered ref total i (p ∷ ps) =
    (p.udhi ≡ some (record { ref = ref; total = total; seq = i + 1 }))
    × IsNumbered ref total (i + 1) ps

pub texts-number_parts :
    (e : Encoding) (ref total i : ℕ) (chunks : List Str)
    → texts (number_parts e ref total i chunks) ≡ chunks
unfolding number_parts
texts-number_parts e ref total i [] = refl
texts-number_parts e ref total i (c ∷ cs) = ap (◌∷◌ c) (texts-number_parts e ref total (i + 1) cs)

pub number_parts-IsNumbered :
    (e : Encoding) (ref total i : ℕ) (chunks : List Str)
    → total ≡ i + length chunks
    → IsNumbered ref total i (number_parts e ref total i chunks)
unfolding number_parts
number_parts-IsNumbered e ref total i [] h = omega arith
number_parts-IsNumbered e ref total i (c ∷ cs) h =
    (refl, number_parts-IsNumbered e ref total (i + 1) cs (omega arith))

pub length-number_parts :
    (e : Encoding) (ref total i : ℕ) (chunks : List Str)
    → length (number_parts e ref total i chunks) ≡ length chunks
unfolding number_parts
length-number_parts e ref total i [] = refl
length-number_parts e ref total i (c ∷ cs) = ap suc (length-number_parts e ref total (i + 1) cs)

abbrev pub IsShortPart : Planned → Type 0
IsShortPart p = IsShort p.encoding p.udhi p.text

gsm7_short :
    (ref total i : ℕ) (chunks : List Str)
    → All Gsm7Parts.IsPart chunks
    → All IsShortPart (number_parts gsm7 ref total i chunks)
unfolding number_parts
gsm7_short ref total i [] h = tt
gsm7_short ref total i (c ∷ cs) h =
    ((IsCovered-needs_ucs2 c h.0.covered, h.0.fits), gsm7_short ref total (i + 1) cs h.1)

ucs2_short :
    (ref total i : ℕ) (chunks : List Str)
    → All Ucs2Parts.IsPart chunks
    → All IsShortPart (number_parts ucs2 ref total i chunks)
unfolding number_parts
ucs2_short ref total i [] h = tt
ucs2_short ref total i (c ∷ cs) h = (h.0.fits, ucs2_short ref total (i + 1) cs h.1)

number_parts-encoding :
    (e : Encoding) (ref total i : ℕ) (chunks : List Str)
    → All (λ p. p.encoding ≡ e) (number_parts e ref total i chunks)
unfolding number_parts
number_parts-encoding e ref total i [] = tt
number_parts-encoding e ref total i (c ∷ cs) = (refl, number_parts-encoding e ref total (i + 1) cs)

abbrev pub encoding_of : Str → Encoding
encoding_of message = if needs_ucs2 message then ucs2 else gsm7

-- Either the message goes as a whole, or as numbered parts; in both cases nothing of it is lost
-- and each part is short enough.
pub record IsPlan (message : Str) (ref : ℕ) (plan : List Planned) : Type 0 where
  pub joined : flatten (texts plan) ≡ message
  pub short : All IsShortPart plan
  pub encoded : All (λ p. p.encoding ≡ encoding_of message) plan
  pub numbered :
      ((p : Planned) × (plan ≡ p ∷ []) × (p.udhi ≡ none)) ⊎ IsNumbered ref (length plan) 0 plan

whole-IsPlan :
    (e : Encoding) (message : Str) (ref : ℕ)
    → e ≡ encoding_of message
    → IsShort e none message
    → IsPlan message ref (whole e message)
whole-IsPlan e message ref he h = record {
  joined = append-nil message;
  short = (h, tt);
  encoded = (he, tt);
  numbered = inl (record { text = message; encoding = e; udhi = none }, refl, refl);
}

numbered-IsPlan :
    (e : Encoding) (message : Str) (ref : ℕ) (chunks : List Str)
    → e ≡ encoding_of message
    → flatten chunks ≡ message
    → All IsShortPart (number_parts e ref (length chunks) 0 chunks)
    → IsPlan message ref (number_parts e ref (length chunks) 0 chunks)
numbered-IsPlan e message ref chunks he hj hs =
    let n = length chunks in
    record {
      joined = ap flatten (texts-number_parts e ref n 0 chunks) ∙ hj;
      short = hs;
      encoded = rw (← he) (number_parts-encoding e ref n 0 chunks);
      numbered = inr (
          rw (length-number_parts e ref n 0 chunks)
            (number_parts-IsNumbered e ref n 0 chunks (omega arith)));
    }

-- The plan in the alphabet, and the one in UCS2.
gsm7-IsPlan :
    (message : Str) (ref : ℕ)
    → needs_ucs2 message ≡ false
    → IsPlan message ref (plan_parts message ref)
unfolding plan_parts
gsm7-IsPlan message ref h =
    let chunks = gsm7_chunks message in
    let (parts, joined) = gsm7_chunks-Splits message h in
    let he : gsm7 ≡ encoding_of message = rw h refl in
    elim (Bool-cases (leb (total_septets message) gsm7_max)) [
      | inl s ↦ rw (h, s, plan_parts) (whole-IsPlan gsm7 message ref he (h, ground arith))
      | inr s ↦
          rw (h, s, plan_parts)
            (numbered-IsPlan gsm7 message ref chunks he joined
              (gsm7_short ref (length chunks) 0 chunks parts))
    ]

ucs2-IsPlan :
    (message : Str) (ref : ℕ)
    → needs_ucs2 message ≡ true
    → IsPlan message ref (plan_parts message ref)
unfolding plan_parts
ucs2-IsPlan message ref h =
    let chunks = ucs2_chunks message in
    let (parts, joined, chars) = ucs2_chunks-Splits message in
    let he : ucs2 ≡ encoding_of message = rw h refl in
    elim (Bool-cases (leb (length message) (ucs2_max / 2))) [
      | inl s ↦ rw (h, s, plan_parts) (whole-IsPlan ucs2 message ref he (ground arith))
      | inr s ↦
          rw (h, s, plan_parts)
            (numbered-IsPlan ucs2 message ref chunks he joined
              (ucs2_short ref (length chunks) 0 chunks parts))
    ]

-- Every message has a plan: one part without a header, or parts that are numbered from 1 and say
-- how many they are. Each is short enough for its place, and together they are the message.
pub plan_parts-IsPlan : (message : Str) (ref : ℕ) → IsPlan message ref (plan_parts message ref)
plan_parts-IsPlan message ref = elim (Bool-cases (needs_ucs2 message)) [
  | inl h ↦ ucs2-IsPlan message ref h
  | inr h ↦ gsm7-IsPlan message ref h
]
