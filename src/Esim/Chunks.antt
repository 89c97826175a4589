-- ===== src/Esim/Chunks.antt =====
-- The commands of a segment of a profile package: `buildEs10bRawChunks` and `buildEs10bChunks` of
-- euicc.js.
pub mod Carried
use mt5700_console.Base.{ℕ, ◌⊎◌, inl, inr, List, [], ◌∷◌, Str}
use mt5700_console.Esim.{Code, bad_apdu}
use mt5700_console.Esim.Apdus.{hex_to_bytes, store_data_apdu}
use mt5700_console.Tlv.{tlv_hex}
use mt5700_console.Tlv.Packages.{StoreData, plan_chunks}

-- The function of `chunks.map`, which ends at the first exception.
unfoldable pub each_command : ℕ → List StoreData → Code ⊎ List Str
each_command ch [] = inr []
each_command ch (c ∷ cs) =
    let rest = each_command ch cs in
    elim (hex_to_bytes c.payload) [
      | inl e ↦ inl e
      | inr tlv ↦ elim rest [
        | inl e ↦ inl e
        | inr commands ↦ inr (store_data_apdu ch tlv c.p1 c.p2 ∷ commands)
      ]
    ]

unfoldable pub build_es10b_raw_chunks : ℕ → Str → ℕ → Code ⊎ List Str
unfolding each_command
build_es10b_raw_chunks ch hex mss = each_command ch (plan_chunks hex mss)

-- `tlvHex` refuses a value of more than 65535 octets.
unfoldable pub build_es10b_chunks : ℕ → Str → Str → ℕ → Code ⊎ List Str
unfolding build_es10b_raw_chunks
build_es10b_chunks ch tag der mss = elim (tlv_hex tag der) [
  | inl e ↦ inl bad_apdu
  | inr hex ↦ build_es10b_raw_chunks ch hex mss
]
