-- ===== src/Sms/UserData/Header.antt =====
-- The concatenation header: 48 bits, one padding bit, and what the reader makes of them.
use mt5700_console.Base.{
  ℕ, ◌<◌, ◌≡◌, refl, sym, ap, ◌∙◌, inl, inr, false, Option, none, some, List, [], ◌∷◌, ◌++◌,
  append-nil, append_assoc, arith, Bool-cases, IsByte, length, All, All-append, Str, IsByte,
}
use mt5700_console.Base.Bits.{bits_of, IsBit}
use mt5700_console.Sms.Septets.{bits_to_octets, pack_loop, pack_septets}
use mt5700_console.Sms.Septets.Stream.{stream, stream-IsBit}
use mt5700_console.Sms.Gsm7.{gsm7_code, is_ext_char, needs_ucs2_chars}
use mt5700_console.Sms.Gsm7.Codes.{char_septets}
use mt5700_console.Sms.Gsm7.Texts.{septets_of, needs_ucs2_chars-cons}
use mt5700_console.Sms.UserData.{Udh, concat_header, push_octets, pad_septet, header_bits}

pub push_octets-stream : (bits bs : List ℕ) → push_octets bits bs ≡ bits ++ stream 8 bs
unfolding push_octets
push_octets-stream bits [] = sym (append-nil bits)
push_octets-stream bits (b ∷ bs) =
    push_octets-stream (bits ++ bits_of 8 b) bs ∙ append_assoc bits (bits_of 8 b) (stream 8 bs)

-- 48 bits and one more fill seven septets.
pub header_bits-some :
    (h : Udh) → header_bits (some h) ≡ stream 8 (concat_header (some h)) ++ (0 ∷ [])
unfolding pad_septet bits_of
header_bits-some h = rw push_octets-stream refl

pub length-header_bits : (h : Udh) → length (header_bits (some h)) ≡ 49
unfolding bits_of
length-header_bits h = rw header_bits-some refl

pub header_bits-IsBit : (u : Option Udh) → All IsBit (header_bits u)
header_bits-IsBit none = tt
header_bits-IsBit (some h) = rw header_bits-some (
    All-append IsBit (stream 8 (concat_header (some h))) (0 ∷ [])
      (stream-IsBit 8 (concat_header (some h))) (omega arith))

stream-append : (w : ℕ) (xs ys : List ℕ) → stream w (xs ++ ys) ≡ stream w xs ++ stream w ys
stream-append w [] ys = refl
stream-append w (x ∷ xs) ys = simp (stream-append w xs ys, append_assoc)

pack_char :
    (bits : List ℕ) (ch : Str) (chs : List Str) (c : ℕ)
    → gsm7_code ch ≡ some c
    → pack_loop bits (ch ∷ chs) ≡ pack_loop (bits ++ stream 7 (char_septets ch)) chs
unfolding pack_loop char_septets
pack_char bits ch chs c e = elim (Bool-cases (is_ext_char ch)) [
  | inl x ↦ rw (e, pack_loop, x, char_septets) (simp (append_assoc, append-nil))
  | inr x ↦ rw (e, pack_loop, x, char_septets) (simp append-nil)
]

-- `packSeptets` writes the septets of the text, seven bits each, and never refuses a text that
-- `needsUcs2` leaves to the alphabet.
pub pack_loop-stream :
    (bits : List ℕ) (chs : List Str)
    → needs_ucs2_chars chs ≡ false
    → pack_loop bits chs ≡ some (bits ++ stream 7 (septets_of chs))
unfolding septets_of
pack_loop-stream bits [] h = unfold pack_loop in ap some (sym (append-nil bits))
pack_loop-stream bits (ch ∷ chs) h =
    let (c, e, h') = needs_ucs2_chars-cons ch chs h in
    pack_char bits ch chs c e
    ∙ pack_loop-stream (bits ++ stream 7 (char_septets ch)) chs h'
    ∙ ap some (
        append_assoc bits (stream 7 (char_septets ch)) (stream 7 (septets_of chs))
        ∙ ap (◌++◌ bits) (sym (stream-append 7 (char_septets ch) (septets_of chs))))

pub pack_septets-stream :
    (chs : List Str)
    → needs_ucs2_chars chs ≡ false
    → pack_septets chs ≡ some (stream 7 (septets_of chs))
unfolding pack_septets
pack_septets-stream chs h = pack_loop-stream [] chs h

byte_of_bits :
    (b : ℕ) (bs : List ℕ) → b < 256 → bits_to_octets (bits_of 8 b ++ bs) ≡ b ∷ bits_to_octets bs
unfolding bits_to_octets bits_of
byte_of_bits b bs h = ap (λ (v : ℕ). v ∷ bits_to_octets bs) (omega arith)

octets_of_stream :
    (bs rest : List ℕ)
    → All IsByte bs
    → bits_to_octets (stream 8 bs ++ rest) ≡ bs ++ bits_to_octets rest
octets_of_stream [] rest h = refl
octets_of_stream (b ∷ bs) rest h =
    ap bits_to_octets (append_assoc (bits_of 8 b) (stream 8 bs) rest)
    ∙ byte_of_bits b (stream 8 bs ++ rest) h.0
    ∙ ap (◌∷◌ b) (octets_of_stream bs rest h.1)

-- The header stands in front of the octets, whole.
pub header_octets :
    (h : Udh) (packed : List ℕ)
    → bits_to_octets (header_bits (some h) ++ packed)
      ≡ concat_header (some h) ++ bits_to_octets (0 ∷ packed)
header_octets h packed =
    ap bits_to_octets (
      ap (λ (bs : List ℕ). bs ++ packed) (header_bits-some h)
      ∙ append_assoc (stream 8 (concat_header (some h))) (0 ∷ []) packed)
    ∙ octets_of_stream (concat_header (some h)) (0 ∷ packed) (omega arith)
