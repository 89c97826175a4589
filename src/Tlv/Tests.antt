-- ===== src/Tlv/Tests.antt =====
-- A small element, and a segment of three commands.
use mt5700_console.Base.{◌≡◌, refl, some, Str, codes, hex_value}
use mt5700_console.Tlv.{Node, read_tlv_at, read_behind_tag, read_length, node_at, hex_number}
use mt5700_console.Tlv.Nodes.{IsNode, read_tlv_at-IsNode}

abbrev challenge : Str
challenge = codes "BF2E058003010203"

abbrev found : Node
found = record { tag = codes "BF2E"; start = 0; value_start = 6; value_len = 5; stop = 16 }

is_found : read_tlv_at challenge 0 ≡ some found
unfolding read_tlv_at read_behind_tag read_length node_at hex_number hex_value
is_found = refl

read_tlv_at-IsNode_example : IsNode challenge 0 found
read_tlv_at-IsNode_example = read_tlv_at-IsNode challenge 0 found is_found
