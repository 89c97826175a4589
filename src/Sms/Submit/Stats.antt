-- ===== src/Sms/Submit/Stats.antt =====
-- `messageStats`, the hint under the input box, against `buildSubmitParts`.
use mt5700_console.Base.{
  ℕ, ◌/◌, ◌≡◌, refl, sym, ◌≢◌, inl, inr, List, [], ◌∷◌, leb, Bool-cases, length, All, Str,
}
use mt5700_console.Sms.Gsm7.{needs_ucs2, total_septets}
use mt5700_console.Sms.UserData.{Encoding, gsm7, ucs2}
use mt5700_console.Sms.Chunks.{gsm7_max, ucs2_max, gsm7_chunks, ucs2_chunks, message_stats}
use mt5700_console.Sms.Submit.{number_parts, plan_parts}
use mt5700_console.Sms.Submit.Parts.{length-number_parts, encoding_of, plan_parts-IsPlan}

announced :
    (message : Str) (ref : ℕ)
    → message ≢ []
    → ((message_stats message).parts ≡ length (plan_parts message ref))
      × ((message_stats message).encoding ≡ encoding_of message)
unfolding message_stats plan_parts
announced [] ref h = absurd (h refl)
announced (c ∷ s) ref h = elim (Bool-cases (needs_ucs2 (c ∷ s))) [
  | inl n ↦ elim (Bool-cases (leb (length (c ∷ s)) (ucs2_max / 2))) [
    | inl t ↦ rw (n, t, plan_parts) (refl, refl)
    | inr t ↦ rw (n, t, plan_parts) (sym (count ucs2 (ucs2_chunks (c ∷ s))), refl)
  ]
  | inr n ↦ elim (Bool-cases (leb (total_septets (c ∷ s)) gsm7_max)) [
    | inl t ↦ rw (n, t, plan_parts) (refl, refl)
    | inr t ↦ rw (n, t, plan_parts) (sym (count gsm7 (gsm7_chunks (c ∷ s))), refl)
  ]
]
  where
    count :
        (e : Encoding) (chunks : List Str)
        → length (number_parts e ref (length chunks) 0 chunks) ≡ length chunks
    count e chunks = length-number_parts e ref (length chunks) 0 chunks

-- What the input box announces is what is sent: for a message that is not empty `messageStats`
-- counts as many parts as `buildSubmitParts` plans, and each of these has the encoding that it
-- names.
pub message_stats-plan_parts :
    (message : Str) (ref : ℕ)
    → message ≢ []
    → ((message_stats message).parts ≡ length (plan_parts message ref))
      × All (λ p. p.encoding ≡ (message_stats message).encoding) (plan_parts message ref)
message_stats-plan_parts message ref h =
    let (count, named) = announced message ref h in
    let plan = plan_parts-IsPlan message ref in (count, rw named plan.encoded)
