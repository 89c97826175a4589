-- ===== src/Esim/LateTests.antt =====
-- A modem that gives out the answer of the card late.
use mt5700_console.Base.{
  ℕ, ◌*◌, ◌≡◌, refl, inr, true, false, Option, none, some, List, [], arith, ◌==◌, if◌then◌else◌,
  length, Str, codes, starts_with, index_of, hex_value,
}
use Prim.Native.String.{String}
use mt5700_console.Esim.{cgla, Reply, Modem, Client}
use mt5700_console.Esim.Texts.{
  search_text, line_at, behind, spaced_digits, behind_comma, quoted_hex, maybe_quoted_hex,
  take_while, drop_while,
}
use mt5700_console.Esim.Answers.{
  Apdu, apdu_of, parse_csim_answer, parse_cgla_answer, parse_apdu_answer,
}
use mt5700_console.Esim.Late.{
  recover_after_timeout, has_late_line, late_answer_of, poll_burst, late_in, first_late,
}
use mt5700_console.Esim.Late.Found.{IsAnswered, after_polls, recover_after_timeout-finds}
use mt5700_console.Tlv.{hex_number}

abbrev says : String → Option Reply
says s = some (record { success = true; text = some (codes s); error = [] })

abbrev fresh : Client
fresh = record { sent = []; last_channel = 0; channel_leak_note = none }

-- The second burst brings the answer of the card.
abbrev slow : Modem
slow sent = if length sent == 6 then says "+CGLA: 4,\"9000\"\r\nOK" else says "OK"

abbrev ticks : List Str → ℕ
ticks sent = 150 * length sent

abbrev accepted : Apdu
accepted = record { content = []; sw = codes "9000"; has_more = false; le = 0 }

slow-IsAnswered : IsAnswered slow cgla ticks 30000 4 1 accepted fresh
unfolding IsAnswered after_polls has_late_line late_answer_of poll_burst late_in first_late index_of
    starts_with search_text line_at behind spaced_digits behind_comma quoted_hex maybe_quoted_hex
    take_while drop_while apdu_of parse_csim_answer parse_cgla_answer parse_apdu_answer hex_number
    hex_value
slow-IsAnswered = (omega arith, refl, (omega arith, refl, refl))

recover_after_timeout-finds_example :
    recover_after_timeout slow cgla ticks 30000 4 400 1 fresh
    ≡ (after_polls 8 fresh, inr (record { content = []; sw = codes "9000"; late_polls = 2 }))
recover_after_timeout-finds_example =
    recover_after_timeout-finds slow cgla ticks 30000 4 400 1 1 accepted fresh (omega arith)
      slow-IsAnswered
