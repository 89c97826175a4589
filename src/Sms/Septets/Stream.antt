-- ===== src/Sms/Septets/Stream.antt =====
-- The packers and the unpacker of Septets, seen as one stream of bits.
use mt5700_console.Base.{
  ℕ, zero, suc, ◌+◌, ◌-◌, ◌*◌, ◌/◌, ◌%◌, ◌^◌, ◌<◌, List, [], ◌∷◌, ◌++◌, ◌≡◌, refl, ap, ◌∙◌, arith,
  length, All, drop, IsByte, All-take, All-append, length-append, append-nil,
}
use mathlib.Core.Path.{ap₂}
use native.Mathlib.Nat.{zero-add, suc-add, pow-suc}
use mt5700_console.Base.Bits.{bits_of, IsBit, length-bits_of, bits_of-IsBit}
use mt5700_console.Sms.Septets.{octet, bits_to_octets}

-- Read `count` groups of seven bits, as far as they go.
unfoldable pub group7 : ℕ → List ℕ → List ℕ
group7 zero bs = []
group7 (suc n) (a ∷ b ∷ c ∷ d ∷ e ∷ f ∷ g ∷ bs) =
    (a + 2 * (b + 2 * (c + 2 * (d + 2 * (e + 2 * (f + 2 * g)))))) ∷ group7 n bs
group7 (suc n) bs = []

-- The bits of a list of numbers of one width.
abbrev pub stream : ℕ → List ℕ → List ℕ
stream w [] = []
stream w (v ∷ vs) = bits_of w v ++ stream w vs

pub group7-bits_of :
    (n m acc : ℕ) (xs : List ℕ)
    → group7 (suc n) (bits_of (suc (suc (suc (suc (suc (suc (suc m))))))) acc ++ xs)
      ≡ acc % 128 ∷ group7 n (bits_of m (acc / 128) ++ xs)
unfolding group7 bits_of
group7-bits_of n m acc xs =
    ap₂ ◌∷◌ (omega arith) (ap (λ (v : ℕ). group7 n (bits_of m v ++ xs)) (omega arith))

pub group7_short : (n k acc : ℕ) → k < 7 → group7 n (bits_of k acc) ≡ []
unfolding group7 bits_of
group7_short zero k acc h = refl
group7_short (suc n) zero acc h = refl
group7_short (suc n) (suc zero) acc h = refl
group7_short (suc n) (suc (suc zero)) acc h = refl
group7_short (suc n) (suc (suc (suc zero))) acc h = refl
group7_short (suc n) (suc (suc (suc (suc zero)))) acc h = refl
group7_short (suc n) (suc (suc (suc (suc (suc zero))))) acc h = refl
group7_short (suc n) (suc (suc (suc (suc (suc (suc zero)))))) acc h = refl
group7_short (suc n) (suc (suc (suc (suc (suc (suc (suc k))))))) acc h = absurd (omega arith)

-- Every septet comes back, whatever bits follow.
pub group7-stream :
    (ss zs : List ℕ) → All (λ s. s < 128) ss → group7 (length ss) (stream 7 ss ++ zs) ≡ ss
unfolding group7 bits_of
group7-stream [] zs h = refl
group7-stream (s ∷ ss) zs h = ap₂ ◌∷◌ (omega arith) (group7-stream ss zs h.1)

-- Whole groups in front are skipped by dropping their septets.
pub drop-group7 :
    (k n : ℕ) (xs ys : List ℕ)
    → length xs ≡ 7 * k
    → drop k (group7 (k + n) (xs ++ ys)) ≡ group7 n ys
unfolding group7
drop-group7 zero n [] ys h = rw zero-add
drop-group7 zero n (x ∷ xs) ys h = absurd (omega arith)
drop-group7 (suc k) n (a ∷ b ∷ c ∷ d ∷ e ∷ f ∷ g ∷ xs) ys h =
    rw suc-add (drop-group7 k n xs ys (omega arith))
drop-group7 (suc k) n xs ys h = absurd (omega arith)

octet_bits :
    (k : ℕ) (bs : List ℕ) → All IsBit bs → bits_of (length bs + k) (octet bs) ≡ bs ++ bits_of k 0
unfolding octet bits_of
octet_bits k [] h = rw zero-add
octet_bits k (b ∷ bs) h =
    rw suc-add
      (ap₂ ◌∷◌ (omega arith) (ap (bits_of (length bs + k)) (omega arith) ∙ octet_bits k bs h.1))

-- The octets hold the bits in order, and some padding.
pub octets_stream :
    (bs : List ℕ) → All IsBit bs → (zs : List ℕ) × (stream 8 (bits_to_octets bs) ≡ bs ++ zs)
unfolding bits_to_octets bits_of
octets_stream (b0 ∷ b1 ∷ b2 ∷ b3 ∷ b4 ∷ b5 ∷ b6 ∷ b7 ∷ bs) h =
    let (zs, e) = octets_stream bs h.1.1.1.1.1.1.1.1 in
    let first : List ℕ = b0 ∷ b1 ∷ b2 ∷ b3 ∷ b4 ∷ b5 ∷ b6 ∷ b7 ∷ [] in
    (zs, ap₂ ◌++◌ (octet_bits 0 first (All-take IsBit 8 (first ++ bs) h)) e)
octets_stream [] h = ([], refl)
octets_stream bs h = (bits_of (8 - length bs) 0, append-nil _ ∙ octet_bits (8 - length bs) bs h)

octet-lt : (bs : List ℕ) → All IsBit bs → octet bs < 2 ^ length bs
unfolding octet
octet-lt [] h = omega arith
octet-lt (b ∷ bs) h = omega (arith, octet-lt bs h.1, pow-suc 2 (length bs))

pub bits_to_octets-IsByte : (bs : List ℕ) → All IsBit bs → All IsByte (bits_to_octets bs)
unfolding bits_to_octets
bits_to_octets-IsByte (b0 ∷ b1 ∷ b2 ∷ b3 ∷ b4 ∷ b5 ∷ b6 ∷ b7 ∷ bs) h =
    let first : List ℕ = b0 ∷ b1 ∷ b2 ∷ b3 ∷ b4 ∷ b5 ∷ b6 ∷ b7 ∷ [] in
    (octet-lt first (All-take IsBit 8 (first ++ bs) h), bits_to_octets-IsByte bs h.1.1.1.1.1.1.1.1)
bits_to_octets-IsByte [] h = tt
bits_to_octets-IsByte bs h = (omega (arith, octet-lt bs h), tt)

pub length-bits_to_octets : (bs : List ℕ) → length (bits_to_octets bs) ≡ (length bs + 7) / 8
unfolding bits_to_octets
length-bits_to_octets (b0 ∷ b1 ∷ b2 ∷ b3 ∷ b4 ∷ b5 ∷ b6 ∷ b7 ∷ bs) =
    omega (arith, length-bits_to_octets bs)
length-bits_to_octets [] = refl
length-bits_to_octets bs = refl

pub length-stream : (w : ℕ) (vs : List ℕ) → length (stream w vs) ≡ w * length vs
length-stream w [] = omega arith
length-stream w (v ∷ vs) =
    omega (arith, length-append (bits_of w v) (stream w vs), length-bits_of w v, length-stream w vs)

pub stream-IsBit : (w : ℕ) (vs : List ℕ) → All IsBit (stream w vs)
stream-IsBit w [] = tt
stream-IsBit w (v ∷ vs) =
    All-append IsBit (bits_of w v) (stream w vs) (bits_of-IsBit w v) (stream-IsBit w vs)
