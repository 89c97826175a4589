-- ===== src/Masks/Tests.antt =====
-- A mask that the modem cut down.
use mt5700_console.Base.{◌≡◌, refl, inl, true, Str, codes, str_eq, hex_value}
use mt5700_console.Cache.{trim, trim_start, trim_end}
use mt5700_console.Masks.{
  clipped, bitmap_state, bits_within, hex_bit, hex_mask_subset, norm_hex_for_compare, strip_zeros,
}
use mt5700_console.Masks.Bits.{bitmap_state-hex_bit}

abbrev want : Str
want = codes "0f"

abbrev got : Str
got = codes "5"

is_clipped : bitmap_state want got ≡ clipped
unfolding bitmap_state hex_mask_subset bits_within hex_bit norm_hex_for_compare strip_zeros trim
    trim_start trim_end hex_value str_eq
is_clipped = refl

has_bit : hex_bit (norm_hex_for_compare got) 2 ≡ true
unfolding hex_bit norm_hex_for_compare strip_zeros trim trim_start trim_end hex_value
has_bit = refl

is_subset : hex_mask_subset want got ≡ true
unfolding hex_mask_subset bits_within hex_bit norm_hex_for_compare strip_zeros trim trim_start
    trim_end hex_value
is_subset = refl

bitmap_state-hex_bit_example : hex_bit (norm_hex_for_compare want) 2 ≡ true
bitmap_state-hex_bit_example = bitmap_state-hex_bit want got 2 (inl is_clipped) has_bit
