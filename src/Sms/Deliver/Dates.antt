-- ===== src/Sms/Deliver/Dates.antt =====
-- Timestamps, and frames that end too early.
use mt5700_console.Base.{
  ℕ, ◌+◌, ◌-◌, ◌*◌, ◌/◌, ◌%◌, ◌≤◌, ◌<◌, ◌≡◌, refl, sym, ap, ◌∙◌, ◌⊎◌, inl, inr, Bool, true, false,
  none, some, List, [], ◌∷◌, ◌++◌, append-nil, arith, ◌==◌, ==_iff, Bool-cases, length, get_or,
}
use mt5700_console.Sms.UserData.{decode_user_data}
use mt5700_console.Sms.Gsm7.{septets_to_string}
use mt5700_console.Sms.Septets.{unpack_septets}
use mt5700_console.Sms.Address.{decode_address}
use mt5700_console.Sms.Deliver.{
  dcs_encoding, read_content, read_scheme, Clock, bcd_digit, checked_date, decode_timestamp,
  out_of_range, decode_incoming, read_deliver,
}
use mt5700_console.Sms.Deliver.Received.{front_of, skip_centre}

-- An octet of a timestamp: two decimal digits, the tens in the low half.
abbrev pub swapped : ℕ → ℕ
swapped n = n % 10 * 16 + n / 10

-- Year within the century, month, day, hour, minute, second and zone.
abbrev pub scts : ℕ → ℕ → ℕ → ℕ → ℕ → ℕ → ℕ → List ℕ
scts year month day hour minute second zone =
    swapped year
    ∷ swapped month
    ∷ swapped day
    ∷ swapped hour
    ∷ swapped minute
    ∷ swapped second
    ∷ zone
    ∷ []

bcd_digit-swapped : (n : ℕ) → n < 100 → bcd_digit (swapped n) ≡ n
unfolding bcd_digit
bcd_digit-swapped n h = omega arith

in_range :
    (month day hour minute second : ℕ)
    → 1 ≤ month
    → month ≤ 12
    → 1 ≤ day
    → day ≤ 31
    → hour ≤ 23
    → minute ≤ 59
    → second ≤ 60
    → out_of_range month day hour minute second ≡ false
unfolding out_of_range
in_range month day hour minute second a b c d e f g = ground arith

-- No octets of user data are no text, whatever the first octet says of a header.
no_content :
    (b : Bool)
    → ((decode_user_data b (dcs_encoding 0) 0 []).0 ≡ [])
      × ((decode_user_data b (dcs_encoding 0) 0 []).1.partial ≡ none)
unfolding decode_user_data dcs_encoding septets_to_string unpack_septets
no_content true = (refl, refl)
no_content false = (refl, refl)

no_sender : (decode_address 0 0 []).text ≡ []
unfolding decode_address
no_sender = refl

module _ {Date : Type 0} (clock : Clock Date) where
  checked_date_cases :
      (year month day hour minute second : ℕ)
      → (let d = checked_date clock year month day hour minute second in
          (d ≡ clock.now)
          ⊎ ((clock.full_year d ≡ year) × (clock.month d ≡ month - 1) × (clock.date d ≡ day)))
  unfolding checked_date
  checked_date_cases year month day hour minute second =
      let d = clock.make year (month - 1) day hour minute second in
      elim (Bool-cases (clock.full_year d == year)) [
        | inr e ↦ rw e (inl refl)
        | inl ey ↦ elim (Bool-cases (clock.month d == month - 1)) [
          | inr e ↦ rw (ey, e) (inl refl)
          | inl em ↦ elim (Bool-cases (clock.date d == day)) [
            | inr e ↦ rw (ey, em, e) (inl refl)
            | inl ed ↦
                rw (ey, em, ed) (inr ((==_iff _ _).0 ey, (==_iff _ _).0 em, (==_iff _ _).0 ed))
          ]
        ]
      ]

  checked_date_make :
      (year month day hour minute second : ℕ)
      → (let d = clock.make year (month - 1) day hour minute second in
          clock.full_year d ≡ year
          → clock.month d ≡ month - 1
          → clock.date d ≡ day
          → checked_date clock year month day hour minute second ≡ d)
  unfolding checked_date
  checked_date_make year month day hour minute second hy hm hd =
      rw ((==_iff _ _).1 hy, (==_iff _ _).1 hm, (==_iff _ _).1 hd) refl

  -- The timestamp of a date that exists, its parts in range and read back by the clock as they
  -- were put in, is read as that date.
  pub decode_timestamp-scts :
      (year month day hour minute second zone : ℕ)
      → year < 100
      → 1 ≤ month
      → month ≤ 12
      → 1 ≤ day
      → day ≤ 31
      → hour ≤ 23
      → minute ≤ 59
      → second ≤ 60
      → clock.full_year (clock.make (2000 + year) (month - 1) day hour minute second) ≡ 2000 + year
      → clock.month (clock.make (2000 + year) (month - 1) day hour minute second) ≡ month - 1
      → clock.date (clock.make (2000 + year) (month - 1) day hour minute second) ≡ day
      → decode_timestamp clock (scts year month day hour minute second zone)
        ≡ clock.make (2000 + year) (month - 1) day hour minute second
  unfolding decode_timestamp
  decode_timestamp-scts year month day hour minute second zone y a b c d e f g hy hm hd =
      rw
        (
          bcd_digit-swapped year y,
          bcd_digit-swapped month (omega arith),
          bcd_digit-swapped day (omega arith),
          bcd_digit-swapped hour (omega arith),
          bcd_digit-swapped minute (omega arith),
          bcd_digit-swapped second (omega arith),
          in_range month day hour minute second a b c d e f g,
        )
        (checked_date_make (2000 + year) month day hour minute second hy hm hd)

  -- Whatever the octets of a timestamp, the date is the current one, or its year, month and day
  -- are those that the octets name: it is never a date that JavaScript carried over.
  pub decode_timestamp-fields :
      (ts : List ℕ)
      → (let d = decode_timestamp clock ts in
          (d ≡ clock.now)
          ⊎ ((clock.full_year d ≡ 2000 + bcd_digit (get_or ts 0 0))
              × (clock.month d ≡ bcd_digit (get_or ts 1 0) - 1)
              × (clock.date d ≡ bcd_digit (get_or ts 2 0))))
  unfolding decode_timestamp
  decode_timestamp-fields (t0 ∷ t1 ∷ t2 ∷ t3 ∷ t4 ∷ t5 ∷ t6 ∷ ts) =
      elim (Bool-cases
        (out_of_range (bcd_digit t1) (bcd_digit t2) (bcd_digit t3) (bcd_digit t4) (bcd_digit t5))) [
          | inl e ↦ rw e (inl refl)
          | inr e ↦ rw e (
              checked_date_cases (2000 + bcd_digit t0) (bcd_digit t1) (bcd_digit t2) (bcd_digit t3)
                (bcd_digit t4) (bcd_digit t5))
        ]
  decode_timestamp-fields [] = inl refl
  decode_timestamp-fields (t0 ∷ []) = inl refl
  decode_timestamp-fields (t0 ∷ t1 ∷ []) = inl refl
  decode_timestamp-fields (t0 ∷ t1 ∷ t2 ∷ []) = inl refl
  decode_timestamp-fields (t0 ∷ t1 ∷ t2 ∷ t3 ∷ []) = inl refl
  decode_timestamp-fields (t0 ∷ t1 ∷ t2 ∷ t3 ∷ t4 ∷ []) = inl refl
  decode_timestamp-fields (t0 ∷ t1 ∷ t2 ∷ t3 ∷ t4 ∷ t5 ∷ []) = inl refl

  nothing_behind :
      (first : ℕ)
      → first % 4 ≡ 0
      → read_deliver clock (first ∷ [])
        ≡ some (record { sender = []; content = []; date = clock.now; partial = none })
  unfolding read_deliver read_scheme read_content decode_timestamp
  nothing_behind first h =
      let (content, partial) = no_content (first / 64 % 2 == 1) in
      rw ((==_iff (first % 4) 0).1 h, no_sender, content, partial) refl

  -- Where the octets end right behind the first octet of an SMS-DELIVER, no test of a length refuses
  -- them, since the place turns into NaN there: the answer is a message without a sender and without a text, of the current time.
  pub decode_incoming-front_of :
      (sca : List ℕ) (first : ℕ)
      → first % 4 ≡ 0
      → decode_incoming clock (front_of sca first)
        ≡ some (record { sender = []; content = []; date = clock.now; partial = none })
  decode_incoming-front_of sca first h =
      ap (λ (t : List ℕ). decode_incoming clock (length sca ∷ t))
        (sym (append-nil (sca ++ (first ∷ []))))
      ∙ skip_centre clock sca first []
      ∙ nothing_behind first h
