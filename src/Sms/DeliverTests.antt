-- ===== src/Sms/DeliverTests.antt =====
-- A message that comes in, timestamps on a clock of lists, and commands that send a message.
use mt5700_console.Base.{
  ℕ, ◌<◌, ◌≡◌, refl, ◌≢◌, none, some, List, [], ◌∷◌, arith, length, get_or, All, Str, codes,
}
use mt5700_console.Sms.UserData.{ucs2, Udh, UserData, build_user_data}
use mt5700_console.Sms.UserData.Reads.{header_info}
use mt5700_console.Sms.Address.{digits_of}
use mt5700_console.Sms.Address.RoundTrip.{address_of}
use mt5700_console.Sms.Submit.{SubmitPart, build_submit_parts}
use mt5700_console.Sms.Deliver.{Clock, decode_incoming, decode_incoming_pdu, decode_timestamp}
use mt5700_console.Sms.Deliver.Received.{deliver_hex, front_of, decode_incoming_pdu-deliver_hex}
use mt5700_console.Sms.Deliver.Dates.{scts, decode_incoming-front_of}
use mt5700_console.Sms.Commands.{build_pdu_send_command, build_text_send_command}
use mt5700_console.Sms.Commands.Framing.{IsFramed, build_text_send_command-IsFramed}
use mt5700_console.Sms.Commands.PduFraming.{build_submit_parts-IsFramed}

-- A date is the list of its fields.
abbrev lists : Clock (List ℕ)
lists = record {
  now = [];
  make = λ year month day hour minute second. year ∷ month ∷ day ∷ hour ∷ minute ∷ second ∷ [];
  full_year = λ d. get_or d 0 0;
  month = λ d. get_or d 1 0;
  date = λ d. get_or d 2 0;
}

abbrev number : Str
number = codes "+8613800"

abbrev hanzi : Str
hanzi = codes "你好"

abbrev second_part : Udh
second_part = record { ref = 7; total = 2; seq = 2 }

abbrev stamp : List ℕ
stamp = scts 26 11 25 19 22 44 0

has_digits : digits_of number ≢ []
unfolding digits_of
has_digits e = cc

few_digits : length (digits_of number) < 256
unfolding digits_of
few_digits = omega arith

decode_incoming_pdu-deliver_hex_example :
    (ud : UserData) × (build_user_data hanzi (some second_part) ucs2 ≡ some ud)
    × (decode_incoming_pdu lists (deliver_hex (0x91 ∷ 0x68 ∷ []) 0x44 number 0 ucs2 stamp ud)
        ≡ some (
            some (record {
              sender = (address_of number).text;
              content = hanzi;
              date = decode_timestamp lists stamp;
              partial = (header_info (some second_part)).partial;
            })))
decode_incoming_pdu-deliver_hex_example =
    decode_incoming_pdu-deliver_hex lists (0x91 ∷ 0x68 ∷ []) 0x44 number 0 stamp hanzi
      (some second_part) ucs2 (omega arith) (omega arith) (omega arith) refl refl has_digits
      few_digits (omega arith) (omega arith) refl (omega arith) (omega arith)

decode_incoming-front_of_example :
    decode_incoming lists (front_of (0x91 ∷ 0x68 ∷ []) 0x04)
    ≡ some (record { sender = []; content = []; date = []; partial = none })
decode_incoming-front_of_example = decode_incoming-front_of lists (0x91 ∷ 0x68 ∷ []) 0x04 refl

abbrev injected : Str
injected = codes "hi\n\rAT+CFUN=0"

build_text_send_command-IsFramed_example :
    All IsFramed (build_text_send_command number injected).pre
    × IsFramed (build_text_send_command number injected).cmd
    × All IsFramed (build_text_send_command number injected).post
build_text_send_command-IsFramed_example = build_text_send_command-IsFramed number injected

build_submit_parts-IsFramed_example :
    (parts : List SubmitPart) × (build_submit_parts number number injected 9 ≡ some parts)
    × All (λ part. IsFramed (build_pdu_send_command part)) parts
build_submit_parts-IsFramed_example = build_submit_parts-IsFramed number number injected 9
