-- ===== src/Sms/Address/Hex.antt =====
-- Reading back hexadecimal: `hex2` and the pairs of an address.
use mt5700_console.Base.{
  ℕ, ◌+◌, ◌*◌, ◌/◌, ◌%◌, ◌<◌, ◌≡◌, refl, ap, ◌∙◌, some, List, [], ◌∷◌, ◌++◌, arith, length, All,
  Str, hex_digit, hex_value-hex_digit, hex2, IsByte,
}
use mt5700_console.Sms.Address.{hex_to_bytes}

-- The octets, two digits each: `octetsToHex`.
unfoldable pub octets_to_hex : List ℕ → Str
octets_to_hex [] = []
octets_to_hex (b ∷ bs) = hex2 b ++ octets_to_hex bs

pub hex_to_bytes-pair :
    (x y : ℕ) (s : Str) (bs : List ℕ)
    → x < 16
    → y < 16
    → hex_to_bytes s ≡ some bs
    → hex_to_bytes (hex_digit x ∷ hex_digit y ∷ s) ≡ some ((x * 16 + y) ∷ bs)
unfolding hex_to_bytes
hex_to_bytes-pair x y s bs hx hy e =
    rw (hex_value-hex_digit x hx, hex_value-hex_digit y hy, e, hex_to_bytes) refl

-- Octets come back from their digits, in front of any other octets.
pub hex_to_bytes-octets_to_hex :
    (os : List ℕ) (s : Str) (bs : List ℕ)
    → All IsByte os
    → hex_to_bytes s ≡ some bs
    → hex_to_bytes (octets_to_hex os ++ s) ≡ some (os ++ bs)
unfolding octets_to_hex hex2
hex_to_bytes-octets_to_hex [] s bs h e = e
hex_to_bytes-octets_to_hex (o ∷ os) s bs h e =
    hex_to_bytes-pair (o / 16) (o % 16) (octets_to_hex os ++ s) (os ++ bs) (omega (arith, h.0))
      (omega arith) (hex_to_bytes-octets_to_hex os s bs h.1 e)
    ∙ ap (λ (v : ℕ). some (v ∷ (os ++ bs))) (omega arith)

pub length-octets_to_hex : (os : List ℕ) → length (octets_to_hex os) ≡ 2 * length os
unfolding octets_to_hex hex2
length-octets_to_hex [] = refl
length-octets_to_hex (o ∷ os) = omega (arith, length-octets_to_hex os)
