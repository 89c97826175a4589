-- ===== src/Sms/Deliver/Frame.antt =====
-- `decodeIncomingPdu` on the frame of an SMS-DELIVER.
use mt5700_console.Base.{
  ℕ, zero, suc, ◌+◌, ◌/◌, ◌%◌, ◌≤◌, ◌≡◌, refl, sym, ap, ◌∙◌, true, false, Option, none, some, List,
  [], ◌∷◌, ◌++◌, arith, ltb, ◌==◌, ==_iff, some_inj, length, take, drop, length-append,
  take-length-append, drop-length-append, Str,
}
use mt5700_console.Sms.Septets.{bits_to_octets}
use mt5700_console.Sms.Septets.Stream.{stream}
use mt5700_console.Sms.Gsm7.{array_from, needs_ucs2, total_septets}
use mt5700_console.Sms.Gsm7.Texts.{septets_of}
use mt5700_console.Sms.UserData.{
  UserData, Udh, Encoding, gsm7, ucs2, build_user_data, decode_user_data, header_bits,
}
use mt5700_console.Sms.UserData.Header.{length-header_bits, pack_septets-stream}
use mt5700_console.Sms.UserData.Bounds.{length_bits}
use mt5700_console.Sms.UserData.Reads.{encoding_code, IsCarried}
use mt5700_console.Sms.Address.{decode_address}
use mt5700_console.Sms.Submit.{dcs_octet}
use mt5700_console.Sms.Deliver.{
  Clock, dcs_encoding, decode_timestamp, read_content, read_deliver, read_scheme, ud_len,
}

pub dcs_encoding-dcs_octet : (e : Encoding) → dcs_encoding (dcs_octet e) ≡ encoding_code e
unfolding dcs_encoding
dcs_encoding-dcs_octet gsm7 = refl
dcs_encoding-dcs_octet ucs2 = refl

-- The reader takes the octets that the length field stands for: all of them.
pub ud_len-build_user_data :
    (message : Str) (udhi : Option Udh) (e : Encoding) (ud : UserData)
    → build_user_data message udhi e ≡ some ud
    → IsCarried e message
    → length ud.octets ≤ ud_len (encoding_code e) ud.udl
unfolding build_user_data ud_len
ud_len-build_user_data message udhi ucs2 ud h c = omega (
  arith,
  ap (λ (u : UserData). length u.octets) (some_inj h),
  ap (λ (u : UserData). u.udl) (some_inj h),
)
ud_len-build_user_data message none gsm7 ud h c =
    let packed = stream 7 (septets_of (array_from message)) in
    let built : build_user_data message none gsm7
        ≡ some (record { octets = bits_to_octets packed; udl = 0 + total_septets message }) =
      rw (pack_septets-stream (array_from message) (unfold needs_ucs2 in c.1), build_user_data)
        refl in
    let same = some_inj (sym built ∙ h) in
    omega (
      arith,
      ap (λ (u : UserData). length u.octets) same,
      ap (λ (u : UserData). u.udl) same,
      length_bits [] message c.1,
    )
ud_len-build_user_data message (some u) gsm7 ud h c =
    let packed = stream 7 (septets_of (array_from message)) in
    let built : build_user_data message (some u) gsm7
        ≡ some (record {
          octets = bits_to_octets (header_bits (some u) ++ packed);
          udl = 7 + total_septets message;
        }) =
      rw (pack_septets-stream (array_from message) (unfold needs_ucs2 in c.1), build_user_data)
        refl in
    let same = some_inj (sym built ∙ h) in
    omega (
      arith,
      ap (λ (u : UserData). length u.octets) same,
      ap (λ (u : UserData). u.udl) same,
      length_bits (header_bits (some u)) message c.1,
      length-header_bits u,
    )

take-all : (n : ℕ) (xs : List ℕ) → length xs ≤ n → take n xs ≡ xs
take-all zero [] h = refl
take-all zero (x ∷ xs) h = absurd (omega arith)
take-all (suc n) [] h = refl
take-all (suc n) (x ∷ xs) h = ap (◌∷◌ x) (take-all n xs (omega arith))

ltb-false : (a b : ℕ) → b ≤ a → ltb a b ≡ false
ltb-false a b h = ground arith

take_counted : (n : ℕ) (xs ys : List ℕ) → length xs ≡ n → take n (xs ++ ys) ≡ xs
take_counted n xs ys h = rw (← h) (take-length-append xs ys)

pub drop_counted : (n : ℕ) (xs ys : List ℕ) → length xs ≡ n → drop n (xs ++ ys) ≡ ys
drop_counted n xs ys h = rw (← h) (drop-length-append xs ys)

module _ {Date : Type 0} (clock : Clock Date) where
  read_scheme_frame :
      (first : ℕ) (sender : Str) (pid dcs : ℕ) (ts : List ℕ) (udl : ℕ) (ud : List ℕ)
      → length ts ≡ 7
      → length ud ≤ ud_len (dcs_encoding dcs) udl
      → read_scheme clock first sender (some (pid ∷ dcs ∷ (ts ++ (udl ∷ ud))))
        ≡ some (record {
          sender = sender;
          content = (decode_user_data (first / 64 % 2 == 1) (dcs_encoding dcs) udl ud).0;
          date = decode_timestamp clock ts;
          partial = (decode_user_data (first / 64 % 2 == 1) (dcs_encoding dcs) udl ud).1.partial;
        })
  unfolding read_scheme read_content
  read_scheme_frame first sender pid dcs ts udl ud ht hu =
      let tail = udl ∷ ud in
      let two : ltb (length (pid ∷ dcs ∷ (ts ++ tail))) 2 ≡ false = ltb-false _ 2 (omega arith) in
      let enough : ltb (length (ts ++ tail)) 7 ≡ false =
        ltb-false _ 7 (omega (arith, length-append ts tail)) in
      let one : ltb (length tail) 1 ≡ false = ltb-false _ 1 (omega arith) in
      rw
        (
          two,
          enough,
          take_counted 7 ts tail ht,
          drop_counted 7 ts tail ht,
          one,
          take-all (ud_len (dcs_encoding dcs) udl) ud hu,
        )
        refl

  -- The frame of an SMS-DELIVER, behind the address of the service centre.
  pub read_deliver_frame :
      (first len toa : ℕ) (body : List ℕ) (pid dcs : ℕ) (ts : List ℕ) (udl : ℕ) (ud : List ℕ)
      → first % 4 ≡ 0
      → length body ≡ (len + 1) / 2
      → length ts ≡ 7
      → length ud ≤ ud_len (dcs_encoding dcs) udl
      → (let tail = pid ∷ dcs ∷ (ts ++ (udl ∷ ud)) in
          read_deliver clock (first ∷ len ∷ toa ∷ (body ++ tail))
          ≡ some (record {
            sender = (decode_address len toa (body ++ tail)).text;
            content = (decode_user_data (first / 64 % 2 == 1) (dcs_encoding dcs) udl ud).0;
            date = decode_timestamp clock ts;
            partial = (decode_user_data (first / 64 % 2 == 1) (dcs_encoding dcs) udl ud).1.partial;
          }))
  unfolding read_deliver
  read_deliver_frame first len toa body pid dcs ts udl ud hf hb ht hu =
      let tail = pid ∷ dcs ∷ (ts ++ (udl ∷ ud)) in
      let enough : ltb (length (len ∷ toa ∷ (body ++ tail))) (1 + (len + 1) / 2) ≡ false =
        ltb-false _ _ (omega (arith, length-append body tail)) in
      let answer : (first % 4 == 0) ≡ true = (==_iff (first % 4) 0).1 hf in
      rw (answer, enough, drop_counted ((len + 1) / 2) body tail hb)
        (read_scheme_frame first (decode_address len toa (body ++ tail)).text pid dcs ts udl ud ht
          hu)
