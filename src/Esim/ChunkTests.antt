-- ===== src/Esim/ChunkTests.antt =====
-- A segment of seven octets in commands of three.
use mt5700_console.Base.{
  ℕ, ◌≤◌, ◌≡◌, refl, ◌⊎◌, inl, inr, true, false, List, [], ◌∷◌, length, flatten, All, Str, codes,
  hex2, hex_digit, hex_value,
}
use mt5700_console.Esim.{bad_hex}
use mt5700_console.Esim.Apdus.{bytes_to_hex, hex_to_bytes, octet_values, store_data_apdu}
use mt5700_console.Esim.Chunks.{build_es10b_raw_chunks, each_command}
use mt5700_console.Esim.Chunks.Carried.{chained, build_es10b_raw_chunks-chained}
use mt5700_console.Tlv.{hex_number, is_hex}
use mt5700_console.Tlv.Packages.{chunk_limit, cut_chunks, number_chunks, plan_chunks}

abbrev segment : Str
segment = codes "BF2E0480020102"

makes_three :
    build_es10b_raw_chunks 1 segment 3
    ≡ inr (codes "81E2110003BF2E04" ∷ codes "81E2110103800201" ∷ codes "81E291020102" ∷ [])
unfolding build_es10b_raw_chunks each_command plan_chunks chunk_limit cut_chunks number_chunks
    hex_to_bytes octet_values store_data_apdu bytes_to_hex hex_number hex_value hex2 hex_digit
    is_hex
makes_three = refl

build_es10b_raw_chunks-chained_example :
    ((is_hex segment ≡ true)
      × (datas : List (List ℕ)) × (build_es10b_raw_chunks 1 segment 3 ≡ inr (chained 1 0 datas))
      × (flatten datas ≡ octet_values segment)
      × All (λ d. length d ≤ 240) datas)
    ⊎ ((is_hex segment ≡ false) × (build_es10b_raw_chunks 1 segment 3 ≡ inl bad_hex))
build_es10b_raw_chunks-chained_example = build_es10b_raw_chunks-chained 1 segment 3 (λ e. cc)
