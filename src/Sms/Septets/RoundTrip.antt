-- ===== src/Sms/Septets/RoundTrip.antt =====
-- The octets of `bitsToOctets` unpack to the septets that were packed.
use mt5700_console.Base.{
  ℕ, ◌+◌, ◌*◌, ◌<◌, List, ◌++◌, ◌≡◌, refl, ◌∙◌, ap, length, All, drop, append_assoc, All-append,
}
use mt5700_console.Base.Bits.{IsBit}
use mt5700_console.Sms.Septets.{bits_to_octets, unpack_septets}
use mt5700_console.Sms.Septets.Stream.{
  stream, stream-IsBit, octets_stream, bits_to_octets-IsByte, group7-stream, drop-group7,
}
use mt5700_console.Sms.Septets.Unpack.{unpack_septets-group7}

-- Behind `k` septets of other bits, such as a user data header with its padding, `ss` comes back.
pub drop-unpack_septets :
    (k : ℕ) (front ss : List ℕ)
    → All IsBit front
    → length front ≡ 7 * k
    → All (λ s. s < 128) ss
    → drop k (unpack_septets (bits_to_octets (front ++ stream 7 ss)) (k + length ss)) ≡ ss
drop-unpack_septets k front ss hf hk hs =
    let bits = front ++ stream 7 ss in
    let are_bits = All-append IsBit front (stream 7 ss) hf (stream-IsBit 7 ss) in
    let (zs, e) = octets_stream bits are_bits in
    ap (drop k) (
      unpack_septets-group7 (bits_to_octets bits) (k + length ss)
        (bits_to_octets-IsByte bits are_bits)
      ∙ rw (e, append_assoc) refl)
    ∙ drop-group7 k (length ss) front (stream 7 ss ++ zs) hk
    ∙ group7-stream ss zs hs
