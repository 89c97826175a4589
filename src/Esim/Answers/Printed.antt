-- ===== src/Esim/Answers/Printed.antt =====
-- `parseCsimAnswer` and `parseCglaAnswer` of euicc.js on the lines that the modem prints.
use mt5700_console.Base.{
  ℕ, ◌+◌, ◌-◌, ◌≡◌, refl, ap, ◌∙◌, true, false, not, some, ◌++◌, arith, ltb, ◌==◌, length, drop,
  all, length-append, take-length-append, drop-length-append, Str, codes, starts_with, is_text,
}
use mt5700_console.Esim.{Transport, csim, cgla}
use mt5700_console.Esim.Texts.{is_hex_digit, line_at, quoted_hex, maybe_quoted_hex, search_text}
use mt5700_console.Esim.Texts.Spans.{
  quoted_line, search_text-line, quoted_hex-append, maybe_quoted_hex-append,
}
use mt5700_console.Esim.Answers.{apdu_of, parse_apdu_answer, parse_csim_answer, parse_cgla_answer}
use mt5700_console.Sms.Address.{is_digit}
use mt5700_console.Tlv.{hex_number}

-- The line of a transport: its name, a number, and the octets and the status word in quotes.
pub answer_line : Transport → Str → Str → Str → Str → Str
answer_line csim n content sw after = quoted_line (codes "+CSIM:") n (content ++ sw) after
answer_line cgla n content sw after = quoted_line (codes "+CGLA:") n (content ++ sw) after

length-append-four :
    (content sw : Str) → length sw ≡ 4 → length (content ++ sw) - 4 ≡ length content
length-append-four content sw h = omega (arith, length-append content sw)

long_enough : (n k : ℕ) → k ≡ 4 → ltb (n + k) 4 ≡ false
long_enough n k h = ground arith

apdu_of-append :
    (content sw : Str)
    → length sw ≡ 4
    → apdu_of (content ++ sw) ≡ record {
      content = content;
      sw = sw;
      has_more = starts_with (codes "61") sw;
      le = hex_number 0 (drop 2 sw);
    }
unfolding apdu_of
apdu_of-append content sw h =
    rw
      (
        ap (λ n. ltb n 4) (length-append content sw) ∙ long_enough (length content) (length sw) h,
        length-append-four content sw h,
        take-length-append content sw,
        drop-length-append content sw,
        apdu_of,
      )
      refl

printed-hex :
    (hex : Str) (text : Str) (t : Transport)
    → elim t [
      | csim ↦ search_text (line_at (codes "+CSIM:") quoted_hex) text
      | cgla ↦ search_text (line_at (codes "+CGLA:") maybe_quoted_hex) text
    ]
      ≡ some hex
    → parse_apdu_answer t text ≡ some (apdu_of hex)
unfolding parse_apdu_answer parse_csim_answer parse_cgla_answer
printed-hex hex text csim h = rw (h, parse_csim_answer) refl
printed-hex hex text cgla h = rw (h, parse_cgla_answer) refl

-- The line of the transport is read wherever it stands behind a text without a plus sign, whatever
-- follows it, with octets in hexadecimal, a status word of four digits, and any decimal number: as
-- the octets, the status word, whether octets wait (61), and how many.
pub parse_apdu_answer-answer_line :
    (t : Transport) (before n content sw after : Str)
    → all (λ x. not (x == 43)) before ≡ true
    → all is_digit n ≡ true
    → is_text n ≡ true
    → all is_hex_digit (content ++ sw) ≡ true
    → length sw ≡ 4
    → parse_apdu_answer t (before ++ answer_line t n content sw after)
      ≡ some (record {
        content = content;
        sw = sw;
        has_more = starts_with (codes "61") sw;
        le = hex_number 0 (drop 2 sw);
      })
unfolding answer_line
parse_apdu_answer-answer_line csim before n content sw after b d t x l =
    printed-hex (content ++ sw) (before ++ answer_line csim n content sw after) csim (
      search_text-line (codes "CSIM:") before n (content ++ sw) after quoted_hex b d t
        (quoted_hex-append (content ++ sw) after x))
    ∙ ap some (apdu_of-append content sw l)
parse_apdu_answer-answer_line cgla before n content sw after b d t x l =
    printed-hex (content ++ sw) (before ++ answer_line cgla n content sw after) cgla (
      search_text-line (codes "CGLA:") before n (content ++ sw) after maybe_quoted_hex b d t
        (maybe_quoted_hex-append (content ++ sw) after x))
    ∙ ap some (apdu_of-append content sw l)
