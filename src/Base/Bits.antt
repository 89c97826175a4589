-- ===== src/Base/Bits.antt =====
-- Bit streams, lowest bit first, as lists of 0 and 1.
use Prim.Native.Nat.{ℕ, zero, suc, ◌+◌, ◌*◌, ◌/◌, ◌%◌, ◌^◌, ◌<◌}
use mathlib.Core.Path.{◌≡◌, refl, sym, ap, ap₂, ◌∙◌}
use mathlib.Core.List.{List, [], ◌∷◌, ◌++◌}
use native.Mathlib.Nat.{pow-suc, zero-add, suc-add}
use native.Mathlib.Omega.{arith}
use mt5700_console.Base.Lists.{length, All}

-- The `n` lowest bits of `v`: `(v >> i) & 1` for `i` below `n`.
unfoldable pub bits_of : ℕ → ℕ → List ℕ
bits_of zero v = []
bits_of (suc n) v = v % 2 ∷ bits_of n (v / 2)

abbrev pub IsBit : ℕ → Type 0
IsBit b = b < 2

pub length-bits_of : (n v : ℕ) → length (bits_of n v) ≡ n
unfolding bits_of
length-bits_of zero v = refl
length-bits_of (suc n) v = ap suc (length-bits_of n (v / 2))

pub bits_of-IsBit : (n v : ℕ) → All IsBit (bits_of n v)
unfolding bits_of
bits_of-IsBit zero v = tt
bits_of-IsBit (suc n) v = (omega arith, bits_of-IsBit n (v / 2))

pow_suc_two : (n : ℕ) → 2 ^ suc n ≡ 2 * 2 ^ n
pow_suc_two n = omega (arith, pow-suc 2 n)

low_bit : (a b n : ℕ) → (a + b * 2 ^ suc n) % 2 ≡ a % 2
low_bit a b n = omega (arith, ap (λ (t : ℕ). b * t) (pow_suc_two n))

high_bits : (a b n : ℕ) → (a + b * 2 ^ suc n) / 2 ≡ a / 2 + b * 2 ^ n
high_bits a b n = omega (arith, ap (λ (t : ℕ). b * t) (pow_suc_two n))

-- Two fields side by side are the bits of the number that holds both.
pub bits_of-append :
    (n m a b : ℕ) → a < 2 ^ n → bits_of n a ++ bits_of m b ≡ bits_of (n + m) (a + b * 2 ^ n)
unfolding bits_of
bits_of-append zero m a b h = ap₂ bits_of (sym (zero-add m)) (omega arith)
bits_of-append (suc n) m a b h = rw suc-add (
    ap₂ ◌∷◌ (sym (low_bit a b n)) (
      bits_of-append n m (a / 2) b (omega (arith, pow_suc_two n))
      ∙ ap (bits_of (n + m)) (sym (high_bits a b n))))
