-- ===== src/Esim/Tests.antt =====
-- A card that opens channel 1, has the ISD-R on it, and enables a profile.
use mt5700_console.Base.{
  ℕ, ◌+◌, ◌-◌, ◌≤◌, ◌≡◌, refl, ◌↔◌, inl, inr, true, false, Option, none, some, [], ◌∷◌, ◌++◌,
  if◌then◌else◌, length, codes, str_eq, starts_with, index_of, hex_digit, hex_value, hex2,
}
use Prim.Native.String.{String}
use mt5700_console.Esim.{failure, bad_hex, csim, Reply, Modem, Client}
use mt5700_console.Esim.Apdus.{Ident}
use mt5700_console.Esim.Texts.{
  take_while, drop_while, behind, search_text, spaced_digits, cme_at, behind_comma, quoted_hex,
  maybe_quoted_hex, line_at,
}
use mt5700_console.Esim.Answers.{
  apdu_of, parse_csim_answer, parse_cgla_answer, parse_apdu_answer, cme_failure, at_failure,
  sw_level, is_channel_unsupported_sw,
}
use mt5700_console.Esim.Apdus.{
  octet_values, hex_to_bytes, bytes_to_hex, quoted_command, csim_command, cgla_command,
  apdu_command, open_channel_apdu, close_channel_apdu, select_isdr_apdu, store_data_apdu,
  get_response_apdu, store_data_of, build_get_eid, operation_tag, operation_body,
  build_profile_operation,
}
use mt5700_console.Esim.Exchange.{
  max_rounds, csim_max_response_bytes, send, command_of, read_answer, answer_of, exchange, is_cut,
  sw_failure, judge, conclude, end_rounds, collect_rounds, send_and_collect, do_close,
}
use mt5700_console.Esim.Session.{
  parse_eid, selected, select_and_ping, first_channel, channel_of, note_channel, open_channel,
  ping_basic, give_up, ping_on, run_script, enter_session, leave_session, with_isdr_session,
  result_field, envelope_result, es10_result, es10_code_to_err, is_accepted, by_result,
  operation_outcome, operation_script, run_operation,
}
use mt5700_console.Cache.{includes}
use mt5700_console.Sms.Commands.{decimal, decimal_loop}
use mt5700_console.Tlv.{
  hex_number, read_length, tlv_total_bytes, is_hex, read_tag, read_len, head_at, read_tlv_head,
  parse_tlv_loop, parse_tlv_children,
}
use mt5700_console.Esim.Session.{Outcome, Ping, Script}
use mt5700_console.Esim.Session.NoNumber.{status_only, open_command, with_isdr_session-bare_success}
use mt5700_console.Esim.Exchange.{Collected}
use mt5700_console.Esim.Exchange.Relation.{Answered, IsPassed, send_and_collect-Answered}
use mt5700_console.Esim.Exchange.Bounds.{send_and_collect-bound}
use mt5700_console.Esim.Answers.Printed.{answer_line, parse_apdu_answer-answer_line}
use mt5700_console.Esim.Session.Closed.{Closes, close_command, with_isdr_session-Closes}
use mt5700_console.Esim.Session.Served.{Serves, with_isdr_session-Serves}
use mt5700_console.Esim.Session.Operations.{Succeeds, run_operation-Succeeds}

abbrev says : String → Option Reply
says s = some (record { success = true; text = some (codes s); error = [] })

abbrev card : Modem
card [] = none
card (command ∷ sent) =
    if str_eq command (codes "AT+CSIM=10,\"0070000001\"")
    then says "+CSIM: 6,\"019000\"\r\nOK"
    else if starts_with (codes "AT+CSIM=42,\"01A40404") command
    then says "+CSIM: 4,\"9000\""
    else if starts_with (codes "AT+CSIM=22,\"81E29100") command
    then says "+CSIM: 8,\"61129000\""
    else if starts_with (codes "AT+CSIM=10,\"81C0000012") command
    then says "+CSIM: 40,\"BF3E125A1089049032001234567890123456789012349000\""
    else if starts_with (codes "AT+CSIM=50,\"81E29100") command
    then says "+CSIM: 16,\"BF31038001009000\""
    else says "+CSIM: 4,\"9000\""

abbrev fresh : Client
fresh = record { sent = []; last_channel = 0; channel_leak_note = none }

abbrev iccid : Ident
iccid = record { kind = codes "iccid"; hex = codes "98680000000000000010" }

abbrev done : Outcome
done = record { sw = codes "9000"; result = some 0; refresh_pending = false }

-- The card opens the channel, and the operation is done.
session_run :
    ((open_channel card fresh).1 ≡ inr 1)
    × ((run_operation card csim (codes "enable") iccid true fresh).1 ≡ inr done)
unfolding take_while drop_while behind search_text spaced_digits cme_at behind_comma quoted_hex
    maybe_quoted_hex line_at apdu_of parse_csim_answer parse_cgla_answer parse_apdu_answer
    cme_failure at_failure sw_level is_channel_unsupported_sw octet_values hex_to_bytes bytes_to_hex
    quoted_command csim_command cgla_command apdu_command open_channel_apdu close_channel_apdu
    select_isdr_apdu store_data_apdu get_response_apdu store_data_of build_get_eid operation_tag
    operation_body build_profile_operation max_rounds csim_max_response_bytes send command_of
    read_answer answer_of exchange is_cut sw_failure judge conclude end_rounds collect_rounds
    send_and_collect do_close parse_eid selected select_and_ping first_channel channel_of
    note_channel open_channel ping_basic give_up ping_on run_script enter_session leave_session
    with_isdr_session result_field envelope_result es10_result es10_code_to_err is_accepted
    by_result operation_outcome operation_script run_operation index_of hex2 hex_digit hex_value
    str_eq starts_with includes decimal decimal_loop hex_number read_length tlv_total_bytes is_hex
    read_tag read_len head_at read_tlv_head parse_tlv_loop parse_tlv_children
session_run = (refl, refl)

abbrev enabling : ℕ → Ping → Script Outcome
enabling = operation_script (codes "enable") iccid true

with_isdr_session-Closes_example :
    Closes
      (close_command 1)
      (open_channel card fresh).0
      (with_isdr_session card csim enabling fresh).0
with_isdr_session-Closes_example = with_isdr_session-Closes card enabling fresh 1 session_run.0

with_isdr_session-Serves_example : Serves card csim enabling fresh done
unfolding run_operation
with_isdr_session-Serves_example =
    with_isdr_session-Serves card csim enabling fresh done session_run.1

run_operation-Succeeds_example : Succeeds card csim (codes "enable") iccid true fresh
run_operation-Succeeds_example =
    run_operation-Succeeds card csim (codes "enable") iccid true fresh done session_run.1

abbrev eid_response : Collected
eid_response = record {
  content = codes "BF3E125A108904903200123456789012345678901234";
  sw = codes "9000";
}

abbrev asked_eid : Client
asked_eid = record fresh {
  sent = codes "AT+CSIM=10,\"81C0000012\"" ∷ codes "AT+CSIM=22,\"81E2910006BF3E035C015A\"" ∷ [];
}

send_and_collect-Answered_example :
    (send_and_collect card csim 1 (codes "81E2910006BF3E035C015A") fresh
      ≡ (asked_eid, inr eid_response))
    ↔ (Answered card csim 1
          (max_rounds csim - 1)
          (codes "81E2910006BF3E035C015A")
          fresh
          eid_response.content
          eid_response.sw
          asked_eid
        × IsPassed eid_response.sw
        × (is_cut csim eid_response.content ≡ false))
send_and_collect-Answered_example =
    send_and_collect-Answered card csim 1 (codes "81E2910006BF3E035C015A") fresh asked_eid
      eid_response

send_and_collect-bound_example :
    length (send_and_collect card csim 1 (codes "81E2910006BF3E035C015A") fresh).0.sent ≤ 0 + 8
send_and_collect-bound_example =
    send_and_collect-bound card csim 1 (codes "81E2910006BF3E035C015A") fresh

parse_apdu_answer-answer_line_example :
    parse_apdu_answer csim
      (codes "\r\n" ++ answer_line csim (codes "6") (codes "01") (codes "9000") (codes "\r\nOK"))
    ≡ some (record { content = codes "01"; sw = codes "9000"; has_more = false; le = 0 })
unfolding starts_with hex_number hex_value
parse_apdu_answer-answer_line_example =
    parse_apdu_answer-answer_line csim (codes "\r\n") (codes "6") (codes "01") (codes "9000")
      (codes "\r\nOK") refl refl refl refl refl

abbrev bare_success : Reply
bare_success = record {
  success = true;
  text = some (codes "\r\n+CSIM: 4,\"9000\"\r\n\r\nOK\r\n");
  error = [];
}

abbrev laconic : Modem
laconic sent = some bare_success

reads_status : answer_of csim bare_success ≡ inr status_only
unfolding answer_of read_answer at_failure parse_apdu_answer parse_csim_answer apdu_of cme_failure
    cme_at take_while drop_while behind search_text spaced_digits behind_comma quoted_hex line_at
    starts_with index_of hex_number hex_value is_hex str_eq
reads_status = refl

with_isdr_session-bare_success_example :
    with_isdr_session laconic csim enabling fresh
    ≡ (record fresh { sent = open_command ∷ [] }, inl (failure bad_hex))
with_isdr_session-bare_success_example =
    with_isdr_session-bare_success laconic enabling fresh bare_success refl reads_status
