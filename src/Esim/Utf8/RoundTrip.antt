-- ===== src/Esim/Utf8/RoundTrip.antt =====
-- UTF-8 there and back: `utf8FromBytes` of euicc.js, without a TextDecoder, on what `utf8ToBytes`
-- writes.
use mt5700_console.Base.{
  ℕ, zero, suc, ◌≤◌, ◌≡◌, refl, ap, ◌∙◌, List, [], ◌∷◌, ◌++◌, map, arith, length, flatten, All,
  length-append, Str,
}
use mt5700_console.Esim.Utf8.{utf8_to_bytes, utf8_loop, utf8_from_bytes}
use mt5700_console.Esim.Utf8.Points.{
  IsScalar, utf16, utf8, utf8_to_bytes-utf16, utf8_loop-utf8, length-utf8,
}

-- A well-formed string: the code units of its code points.
pub units_of : List ℕ → Str
units_of ps = flatten (map utf16 ps)

-- Every string of code points is encoded as the octets of each, in order.
encode-units_of :
    (ps : List ℕ) → All IsScalar ps → utf8_to_bytes (units_of ps) ≡ flatten (map utf8 ps)
unfolding units_of utf8_to_bytes
encode-units_of [] h = refl
encode-units_of (p ∷ ps) h =
    utf8_to_bytes-utf16 p (flatten (map utf16 ps)) h.0 ∙ ap (◌++◌ (utf8 p)) (encode-units_of ps h.1)

-- As much fuel as there are octets is enough.
decode-units_of :
    (ps : List ℕ) (n : ℕ)
    → All IsScalar ps
    → length (flatten (map utf8 ps)) ≤ n
    → utf8_loop n (flatten (map utf8 ps)) ≡ units_of ps
unfolding units_of utf8_loop
decode-units_of [] zero h l = refl
decode-units_of [] (suc n) h l = refl
decode-units_of (p ∷ ps) zero h l =
    absurd (omega (arith, length-utf8 p, length-append (utf8 p) (flatten (map utf8 ps))))
decode-units_of (p ∷ ps) (suc n) h l =
    utf8_loop-utf8 n p (flatten (map utf8 ps)) h.0
    ∙ ap (◌++◌ (utf16 p)) (
        decode-units_of ps n h.1
          (omega (arith, length-utf8 p, length-append (utf8 p) (flatten (map utf8 ps)))))

-- A string of whole characters, of code points that are no surrogates, is encoded as the UTF-8 of
-- each of them, and decoded again by the loop that stands in for a missing TextDecoder.
pub utf8_from_bytes-utf8_to_bytes :
    (ps : List ℕ)
    → All IsScalar ps
    → (utf8_to_bytes (units_of ps) ≡ flatten (map utf8 ps))
      × (utf8_from_bytes (utf8_to_bytes (units_of ps)) ≡ units_of ps)
unfolding utf8_from_bytes
utf8_from_bytes-utf8_to_bytes ps h =
    let e = encode-units_of ps h in
    (e, ap utf8_from_bytes e ∙ decode-units_of ps (length (flatten (map utf8 ps))) h (omega arith))
