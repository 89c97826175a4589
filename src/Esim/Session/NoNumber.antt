-- ===== src/Esim/Session/NoNumber.antt =====
-- `withIsdrSession` of euicc.js where MANAGE CHANNEL gives a status word alone.
use mt5700_console.Base.{
  ℕ, ◌≡◌, refl, ap, ◌∙◌, ◌⊎◌, inl, inr, false, none, some, [], ◌∷◌, Str, codes, str_eq, starts_with,
  index_of, hex_digit, hex_value, hex2,
}
use mt5700_console.Esim.Binds.{>>=-to}
use mt5700_console.Esim.Answers.{Apdu}
use mt5700_console.Esim.Exchange.{Collected}
use mt5700_console.Esim.Exchange.Rounds.{collect-last}
use mt5700_console.Esim.{M, lift, ◌>>=◌, bad_hex, Failure, failure, csim, Reply, Modem, Client}
use mt5700_console.Esim.Texts.{
  take_while, drop_while, behind, search_text, spaced_digits, cme_at, behind_comma, quoted_hex,
  maybe_quoted_hex, line_at,
}
use mt5700_console.Esim.Answers.{
  apdu_of, parse_csim_answer, parse_cgla_answer, parse_apdu_answer, cme_failure, at_failure,
  sw_level, is_channel_unsupported_sw,
}
use mt5700_console.Esim.Apdus.{
  octet_values, hex_to_bytes, bytes_to_hex, quoted_command, csim_command, cgla_command,
  apdu_command, open_channel_apdu, close_channel_apdu, select_isdr_apdu, store_data_apdu,
  get_response_apdu, store_data_of, build_get_eid, operation_tag, operation_body,
  build_profile_operation,
}
use mt5700_console.Esim.Exchange.{
  max_rounds, csim_max_response_bytes, send, command_of, read_answer, answer_of, exchange, is_cut,
  sw_failure, judge, conclude, end_rounds, collect_rounds, send_and_collect, do_close,
}
use mt5700_console.Esim.Session.{
  parse_eid, selected, select_and_ping, first_channel, channel_of, note_channel, open_channel,
  ping_basic, give_up, ping_on, run_script, enter_session, leave_session, with_isdr_session,
  result_field, envelope_result, es10_result, es10_code_to_err, is_accepted, by_result,
  operation_outcome, operation_script, run_operation,
}
use mt5700_console.Cache.{includes}
use mt5700_console.Sms.Commands.{decimal, decimal_loop}
use mt5700_console.Tlv.{
  hex_number, read_length, tlv_total_bytes, is_hex, read_tag, read_len, head_at, read_tlv_head,
  parse_tlv_loop, parse_tlv_children,
}
use mt5700_console.Esim.Session.{Entered, Ping, Script}

abbrev pub open_command : Str
open_command = codes "AT+CSIM=10,\"0070000001\""

abbrev pub status_only : Apdu
status_only = record { content = []; sw = codes "9000"; has_more = false; le = 0 }

-- The command, what its reply says, and what is made of it.
computed :
    (command_of csim open_channel_apdu ≡ inr open_command)
    × (conclude csim 0 (codes "9000") [] ≡ inr (record { content = []; sw = codes "9000" }))
    × (channel_of (record { content = []; sw = codes "9000" }) ≡ inl (failure bad_hex))
unfolding take_while drop_while behind search_text spaced_digits cme_at behind_comma quoted_hex
    maybe_quoted_hex line_at apdu_of parse_csim_answer parse_cgla_answer parse_apdu_answer
    cme_failure at_failure sw_level is_channel_unsupported_sw octet_values hex_to_bytes bytes_to_hex
    quoted_command csim_command cgla_command apdu_command open_channel_apdu close_channel_apdu
    select_isdr_apdu store_data_apdu get_response_apdu store_data_of build_get_eid operation_tag
    operation_body build_profile_operation max_rounds csim_max_response_bytes send command_of
    read_answer answer_of exchange is_cut sw_failure judge conclude end_rounds collect_rounds
    send_and_collect do_close parse_eid selected select_and_ping first_channel channel_of
    note_channel open_channel ping_basic give_up ping_on run_script enter_session leave_session
    with_isdr_session result_field envelope_result es10_result es10_code_to_err is_accepted
    by_result operation_outcome operation_script run_operation index_of hex2 hex_digit hex_value
    str_eq starts_with includes decimal decimal_loop hex_number read_length tlv_total_bytes is_hex
    read_tag read_len head_at read_tlv_head parse_tlv_loop parse_tlv_children
computed = (refl, refl, refl)

asked : Client → Client
asked c = record c { sent = open_command ∷ c.sent }

send-some :
    (modem : Modem) (command : Str) (c : Client) (r : Reply)
    → modem (command ∷ c.sent) ≡ some r
    → send modem command c ≡ (record c { sent = command ∷ c.sent }, inr r)
unfolding send
send-some modem command c r h = rw (h, send) refl

exchange-open :
    (modem : Modem) (c : Client) (r : Reply)
    → modem (open_command ∷ c.sent) ≡ some r
    → answer_of csim r ≡ inr status_only
    → exchange modem csim open_channel_apdu c ≡ (asked c, inr status_only)
unfolding exchange asked
exchange-open modem c r h a =
    >>=-to (lift (command_of csim open_channel_apdu))
      (λ command. send modem command >>= λ r. lift (answer_of csim r)) c c open_command
      (ap (λ (x : Failure ⊎ Str). (c, x)) computed.0)
    ∙ >>=-to (send modem open_command) (λ r. lift (answer_of csim r)) c (asked c) r sends
    ∙ ap (λ (x : Failure ⊎ Apdu). (asked c, x)) a
  where
    sends : send modem open_command c ≡ (asked c, inr r)
    sends = send-some modem open_command c r h

collected :
    (modem : Modem) (c : Client) (r : Reply)
    → modem (open_command ∷ c.sent) ≡ some r
    → answer_of csim r ≡ inr status_only
    → send_and_collect modem csim 0 open_channel_apdu c
      ≡ (asked c, inr (record { content = []; sw = codes "9000" }))
unfolding send_and_collect max_rounds
collected modem c r h a =
    collect-last modem csim 0 7 open_channel_apdu [] c (asked c) status_only
      (exchange-open modem c r h a) refl
    ∙ ap (λ (x : Failure ⊎ Collected). (asked c, x)) computed.1

noted : ℕ → M ℕ
noted ch c = (note_channel ch c, inr ch)

bare_open :
    (modem : Modem) (c : Client) (r : Reply)
    → modem (open_command ∷ c.sent) ≡ some r
    → answer_of csim r ≡ inr status_only
    → open_channel modem c ≡ (asked c, inl (failure bad_hex))
unfolding open_channel noted
bare_open modem c r h a =
    >>=-to (send_and_collect modem csim 0 open_channel_apdu) (λ o. lift (channel_of o) >>= noted) c
      (asked c) (record { content = []; sw = codes "9000" }) (collected modem c r h a)
    ∙ ap (λ (x : Failure ⊎ ℕ). (lift x >>= noted) (asked c)) computed.2

entry :
    (modem : Modem) (c : Client) (r : Reply)
    → modem (open_command ∷ c.sent) ≡ some r
    → answer_of csim r ≡ inr status_only
    → enter_session modem csim c ≡ (asked c, inl (none, failure bad_hex))
unfolding enter_session
entry modem c r h a =
    let q = bare_open modem c r h a in
    rw (ap (λ (r : Client × (Failure ⊎ ℕ)). r.1) q, enter_session)
      (ap (λ (r : Client × (Failure ⊎ ℕ)). (r.0, fails)) q)
  where
    fails : Entered
    fails = inl (none, failure bad_hex)

-- Where the modem answers MANAGE CHANNEL with any reply that is read as the status word 9000 and no
-- data, so without a channel number, the session over AT+CSIM fails with EUICC_BAD_HEX: nothing more
-- is sent, and the basic channel is not tried.
pub with_isdr_session-bare_success :
    {A : Type 0} (modem : Modem) (fn : ℕ → Ping → Script A) (c : Client) (r : Reply)
    → modem (open_command ∷ c.sent) ≡ some r
    → answer_of csim r ≡ inr status_only
    → with_isdr_session modem csim fn c
      ≡ (record c { sent = open_command ∷ c.sent }, inl (failure bad_hex))
unfolding with_isdr_session enter_session leave_session asked do_close
with_isdr_session-bare_success modem fn c r h a = rw (entry modem c r h a) refl
