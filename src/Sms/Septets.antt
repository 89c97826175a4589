-- ===== src/Sms/Septets.antt =====
-- Packing septets into octets (smsEncode.js) and unpacking them (parse.js).
pub mod Stream
pub mod Unpack
pub mod RoundTrip
use mt5700_console.Base.{
  ℕ, zero, suc, ◌+◌, ◌-◌, ◌*◌, ◌/◌, ◌%◌, ◌^◌, true, false, ◌&&◌, Option, none, some, List, [], ◌∷◌,
  ◌++◌, leb, ltb, if◌then◌else◌, Str, length,
}
use mt5700_console.Base.Bits.{bits_of}
use mt5700_console.Sms.Gsm7.{gsm7_code, is_ext_char}

-- `pushBits`.
abbrev pub push_bits : List ℕ → ℕ → ℕ → List ℕ
push_bits bits value count = bits ++ bits_of count value

-- The loop of `packSeptets`; `none` is its `return null`.
unfoldable pub pack_loop : List ℕ → List Str → Option (List ℕ)
pack_loop bits [] = some bits
pack_loop bits (ch ∷ chs) = elim (gsm7_code ch) [
  | none ↦ none
  | some c ↦
      pack_loop
        (if is_ext_char ch then push_bits (push_bits bits 0x1b 7) c 7 else push_bits bits c 7) chs
]

unfoldable pub pack_septets : List Str → Option (List ℕ)
unfolding pack_loop
pack_septets = pack_loop []

-- `b |= bits[i + j] << j` from `b = 0`: the shifted bits do not overlap.
unfoldable pub octet : List ℕ → ℕ
octet [] = 0
octet (b ∷ bs) = b + 2 * octet bs

-- `bitsToOctets`: whole groups of eight, then what is left.
unfoldable pub bits_to_octets : List ℕ → List ℕ
unfolding octet
bits_to_octets (b0 ∷ b1 ∷ b2 ∷ b3 ∷ b4 ∷ b5 ∷ b6 ∷ b7 ∷ bs) =
    octet (b0 ∷ b1 ∷ b2 ∷ b3 ∷ b4 ∷ b5 ∷ b6 ∷ b7 ∷ []) ∷ bits_to_octets bs
bits_to_octets [] = []
bits_to_octets bs = octet bs ∷ []

-- The inner loop of `unpackSeptets`, on the variables `out`, `acc` and `bits`. A round takes
-- seven bits away, so as much fuel as there are bits is enough.
unfoldable pub unpack_while : ℕ → ℕ → List ℕ → ℕ → ℕ → List ℕ × ℕ × ℕ
unpack_while zero count out acc bits = (out, acc, bits)
unpack_while (suc fuel) count out acc bits = elim (leb 7 bits && ltb (length out) count) [
  | true ↦ unpack_while fuel count (out ++ (acc % 128 ∷ [])) (acc / 128) (bits - 7)
  | false ↦ (out, acc, bits)
]

-- The outer loop; `acc |= data[i] << bits` adds, since `acc` has no bit from `bits` on.
unfoldable pub unpack_loop : ℕ → List ℕ → ℕ → ℕ → List ℕ → List ℕ
unfolding unpack_while
unpack_loop count out acc bits [] = out
unpack_loop count out acc bits (d ∷ ds) =
    let (out', acc', bits') = unpack_while (bits + 8) count out (acc + d * 2 ^ bits) (bits + 8) in
    let more = unpack_loop count out' acc' bits' ds in if ltb (length out) count then more else out

unfoldable pub unpack_septets : List ℕ → ℕ → List ℕ
unfolding unpack_loop
unpack_septets octets count = unpack_loop count [] 0 0 octets
