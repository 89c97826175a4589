-- ===== src/Esim/Exchange/Relation.antt =====
-- `sendAndCollect` of euicc.js against a relation: what it gives are the parts that the card
-- answered with, in order.
use mt5700_console.Base.{
  ℕ, zero, suc, ◌-◌, ◌≡◌, refl, sym, ap, ◌∙◌, ◌≢◌, ◌↔◌, ◌⊎◌, inl, inr, true, false, [], ◌++◌,
  append_assoc, Bool-cases, inr_inj, Str,
}
use mt5700_console.Esim.{
  csim_truncated, tlv_truncated, no_euicc, op_failed, Failure, failure, Transport, Modem, Client,
}
use mt5700_console.Esim.Answers as Levels
use mt5700_console.Esim.Answers.{Apdu, Level, sw_level}
use mt5700_console.Esim.Apdus.{get_response_apdu}
use mt5700_console.Esim.Binds.{>>=-inr}
use mt5700_console.Esim.Exchange.Rounds.{
  collect_rounds-zero, collect_rounds-suc, round_step, next_round, collect-last, collect-part,
  collect_rounds-zero-more,
}
use mt5700_console.Esim.Exchange.{
  end_rounds, Collected, exchange, is_cut, sw_failure, judge, conclude, collect_rounds,
  send_and_collect, max_rounds,
}

-- From a state on, a card answers an APDU with these octets and this status word, in so many
-- further rounds at most: at once, or with a part, and the rest for GET RESPONSE.
pub data Answered (modem : Modem) (t : Transport) (ch : ℕ)
    : ℕ → Str → Client → Str → Str → Client → Type 0 where
  last :
      {left : ℕ} {apdu : Str} {c c' : Client} (a : Apdu)
      → exchange modem t apdu c ≡ (c', inr a)
      → a.has_more ≡ false
      → Answered modem t ch left apdu c a.content a.sw c'
  part :
      {left : ℕ} {apdu rest sw : Str} {c c' c'' : Client} (a : Apdu)
      → exchange modem t apdu c ≡ (c', inr a)
      → a.has_more ≡ true
      → Answered modem t ch left (get_response_apdu ch a.le) c' rest sw c''
      → Answered modem t ch (suc left) apdu c (a.content ++ rest) sw c''

-- The function follows the relation, whether the end is a success or not.
pub collect_rounds-Answered :
    {modem : Modem} {t : Transport} {ch left : ℕ} {apdu content sw : Str} {c c' : Client}
    → Answered modem t ch left apdu c content sw c'
    → (acc : Str)
    → collect_rounds modem t ch left apdu acc c ≡ (c', conclude t ch sw (acc ++ content))
collect_rounds-Answered {modem} {t} {ch} {left} {apdu} {content} {sw} {c} {c'} (last a e h) acc =
    collect-last modem t ch left apdu acc c c' a e h
collect_rounds-Answered {modem} {t} {ch} (part {left} {apdu} {rest} {sw} {c} {c'} {c''} a e h r)
      acc =
    rw
      (
        collect-part modem t ch left apdu acc c c' a e h,
        collect_rounds-Answered r (acc ++ a.content),
        append_assoc acc a.content rest,
      )
      refl

-- Behind a success of the function: the answer of the card, and the end that concludes with it.
record Ends (modem : Modem) (t : Transport) (ch left : ℕ) (apdu acc : Str) (c c' : Client)
    (r : Collected) : Type 0 where
  content : Str
  sw : Str
  answered : Answered modem t ch left apdu c content sw c'
  concluded : conclude t ch sw (acc ++ content) ≡ inr r

-- The first answer of a success.
first_answer :
    (modem : Modem) (t : Transport) (ch left : ℕ) (apdu acc : Str) (c c' : Client) (r : Collected)
    → collect_rounds modem t ch left apdu acc c ≡ (c', inr r)
    → (a : Apdu) × (exchange modem t apdu c ≡ ((exchange modem t apdu c).0, inr a))
first_answer modem t ch zero apdu acc c c' r h =
    let q =
      ap (λ (p : Client × (Failure ⊎ Collected)). p.1)
        (sym (collect_rounds-zero modem t ch apdu acc c) ∙ h) in
    let (a, e, _) = >>=-inr (exchange modem t apdu) (end_rounds t ch acc) c r q in
    (a, ap (λ (x : Failure ⊎ Apdu). ((exchange modem t apdu c).0, x)) e)
first_answer modem t ch (suc left) apdu acc c c' r h =
    let q =
      ap (λ (p : Client × (Failure ⊎ Collected)). p.1)
        (sym (collect_rounds-suc modem t ch left apdu acc c) ∙ h) in
    let (a, e, _) =
      >>=-inr (exchange modem t apdu) (round_step (next_round modem t ch left acc) t ch acc) c r
        q in
    (a, ap (λ (x : Failure ⊎ Apdu). ((exchange modem t apdu c).0, x)) e)

stops_at_once :
    (modem : Modem) (t : Transport) (ch left : ℕ) (apdu acc : Str) (c c₁ c' : Client) (a : Apdu)
    (r : Collected)
    → exchange modem t apdu c ≡ (c₁, inr a)
    → a.has_more ≡ false
    → collect_rounds modem t ch left apdu acc c ≡ (c', inr r)
    → Ends modem t ch left apdu acc c c' r
stops_at_once modem t ch left apdu acc c c₁ c' a r e h s =
    let q : (c₁, conclude t ch a.sw (acc ++ a.content)) ≡ (c', inr r) =
      sym (collect-last modem t ch left apdu acc c c₁ a e h) ∙ s in
    record {
      content = a.content;
      sw = a.sw;
      answered = rw (← ap (λ (p : Client × (Failure ⊎ Collected)). p.0) q) (last a e h);
      concluded = ap (λ (p : Client × (Failure ⊎ Collected)). p.1) q;
    }

not_both :
    {A B C : Type 0} (c c' : A) (e : B) (r : C) → Path (A × (B ⊎ C)) (c, inl e) (c', inr r) → ⊥
not_both c c' e r h = cc

collect_rounds-Ends :
    (modem : Modem) (t : Transport) (ch left : ℕ) (apdu acc : Str) (c c' : Client) (r : Collected)
    → collect_rounds modem t ch left apdu acc c ≡ (c', inr r)
    → Ends modem t ch left apdu acc c c' r
collect_rounds-Ends modem t ch zero apdu acc c c' r h =
    let (a, e) = first_answer modem t ch zero apdu acc c c' r h in
    let c₁ = (exchange modem t apdu c).0 in
    elim (Bool-cases a.has_more) [
      | inr m ↦ stops_at_once modem t ch zero apdu acc c c₁ c' a r e m h
      | inl m ↦ absurd (
          not_both c₁ c' (failure tlv_truncated) r
            (sym (collect_rounds-zero-more modem t ch apdu acc c c₁ a e m) ∙ h))
    ]
collect_rounds-Ends modem t ch (suc left) apdu acc c c' r h =
    let (a, e) = first_answer modem t ch (suc left) apdu acc c c' r h in
    let c₁ = (exchange modem t apdu c).0 in
    elim (Bool-cases a.has_more) [
      | inr m ↦ stops_at_once modem t ch (suc left) apdu acc c c₁ c' a r e m h
      | inl m ↦
          (let k =
              collect_rounds-Ends modem t ch left (get_response_apdu ch a.le) (acc ++ a.content) c₁
                c' r (sym (collect-part modem t ch left apdu acc c c₁ a e m) ∙ h) in
            record {
              content = a.content ++ k.content;
              sw = k.sw;
              answered = part a e m k.answered;
              concluded =
                  ap (conclude t ch k.sw) (sym (append_assoc acc a.content k.content))
                  ∙ k.concluded;
            })
    ]

-- A status word that is not an error.
abbrev pub IsPassed : Str → Type 0
IsPassed sw = (sw_level sw ≢ Levels.error) × (sw_level sw ≢ Levels.fatal)

passed_as :
    (ch : ℕ) (sw content : Str) (r : Collected) (l : Level)
    → sw_level sw ≡ l
    → l ≢ Levels.error
    → l ≢ Levels.fatal
    → judge ch sw content ≡ inr (record { content = content; sw = sw })
unfolding judge
passed_as ch sw content r Levels.ok e p q = rw (e, judge) refl
passed_as ch sw content r Levels.warn e p q = rw (e, judge) refl
passed_as ch sw content r Levels.more e p q = rw (e, judge) refl
passed_as ch sw content r Levels.error e p q = absurd (p refl)
passed_as ch sw content r Levels.fatal e p q = absurd (q refl)

judge-level :
    (ch : ℕ) (sw content : Str) (r : Collected) (l : Level)
    → sw_level sw ≡ l
    → judge ch sw content ≡ inr r
    → (l ≢ Levels.error) × (l ≢ Levels.fatal)
unfolding judge
judge-level ch sw content r Levels.ok e h = (λ p. cc, λ p. cc)
judge-level ch sw content r Levels.warn e h = (λ p. cc, λ p. cc)
judge-level ch sw content r Levels.more e h = (λ p. cc, λ p. cc)
judge-level ch sw content r Levels.error e h =
    (let q : inl (sw_failure op_failed ch sw) ≡ inr r = rw (e, judge) at h in cc)
judge-level ch sw content r Levels.fatal e h =
    (let q : inl (sw_failure no_euicc ch sw) ≡ inr r = rw (e, judge) at h in cc)

conclude-inr :
    (t : Transport) (ch : ℕ) (sw content : Str) (r : Collected)
    → conclude t ch sw content ≡ inr r
    → IsPassed sw × (is_cut t content ≡ false) × (record { content = content; sw = sw } ≡ r)
unfolding conclude
conclude-inr t ch sw content r h = elim (Bool-cases (is_cut t content)) [
  | inl e ↦ (let q : inl (failure csim_truncated) ≡ inr r = rw (e, conclude) at h in cc)
  | inr e ↦
      (let q : judge ch sw content ≡ inr r = rw (e, conclude) at h in
        let (p, f) = judge-level ch sw content r (sw_level sw) refl q in
        ((p, f), e, inr_inj (sym (passed_as ch sw content r (sw_level sw) refl p f) ∙ q)))
]

conclude-passed :
    (t : Transport) (ch : ℕ) (sw content : Str)
    → IsPassed sw
    → is_cut t content ≡ false
    → conclude t ch sw content ≡ inr (record { content = content; sw = sw })
unfolding conclude
conclude-passed t ch sw content (p, f) e =
    rw (e, conclude)
      (passed_as ch sw content (record { content = content; sw = sw }) (sw_level sw) refl p f)

succeeds :
    (modem : Modem) (t : Transport) (ch left : ℕ) (apdu : Str) (c c' : Client) (r : Collected)
    → Ends modem t ch left apdu [] c c' r
    → Answered modem t ch left apdu c r.content r.sw c'
      × IsPassed r.sw
      × (is_cut t r.content ≡ false)
succeeds modem t ch left apdu c c' r k =
    let (p, e, q) = conclude-inr t ch k.sw k.content r k.concluded in rw (← q) (k.answered, p, e)

-- What `sendAndCollect` gives is what the relation allows: it succeeds with some octets and a
-- status word if and only if the card answers so within the rounds, its parts in order, the status
-- word is not an error, and the octets are not those of a response that AT+CSIM has cut off.
pub send_and_collect-Answered :
    (modem : Modem) (t : Transport) (ch : ℕ) (apdu : Str) (c c' : Client) (r : Collected)
    → (send_and_collect modem t ch apdu c ≡ (c', inr r)) ↔ (
        Answered modem t ch (max_rounds t - 1) apdu c r.content r.sw c'
        × IsPassed r.sw
        × (is_cut t r.content ≡ false))
unfolding send_and_collect
send_and_collect-Answered modem t ch apdu c c' r = (
  λ h.
      succeeds modem t ch (max_rounds t - 1) apdu c c' r
        (collect_rounds-Ends modem t ch (max_rounds t - 1) apdu [] c c' r h),
  λ (a, p, e).
      collect_rounds-Answered a []
      ∙ ap (λ (x : Failure ⊎ Collected). (c', x)) (conclude-passed t ch r.sw r.content p e),
)
