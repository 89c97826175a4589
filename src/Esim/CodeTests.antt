-- ===== src/Esim/CodeTests.antt =====
-- An activation code with all its fields, and one without an identifier.
use mt5700_console.Base.{
  ℕ, ◌≡◌, refl, inl, inr, true, none, some, List, [], ◌∷◌, map, arith, flatten, All, Str, codes,
  str_eq,
}
use mt5700_console.Cache.{trim, trim_start, trim_end, last_char}
use mt5700_console.Esim.Codes.{
  is_fqdn, split_on, put_first, is_label, without_dot, parse_activation_code, build_activation_code,
}
use mt5700_console.Esim.Codes.RoundTrip.{IsNamed, parse-build_activation_code, parse-build_no_oid}
use mt5700_console.Esim.Utf8.{utf8_to_bytes, utf8_from_bytes}
use mt5700_console.Esim.Utf8.Points.{IsScalar, utf8}
use mt5700_console.Esim.Utf8.RoundTrip.{units_of, utf8_from_bytes-utf8_to_bytes}

abbrev server : Str
server = codes "rsp.example.com"

server-IsNamed : IsNamed server (codes "ABC-1")
unfolding is_fqdn split_on put_first is_label without_dot trim trim_start trim_end last_char str_eq
server-IsNamed = record { domain = refl; domain_chars = refl; matching = refl }

parse-build_activation_code_example :
    parse_activation_code
      (build_activation_code server (codes "ABC-1") (codes "1.3.6.1") (some true))
    ≡ inr (record {
      code = build_activation_code server (codes "ABC-1") (codes "1.3.6.1") (some true);
      smdp = server;
      matching_id = codes "ABC-1";
      oid = codes "1.3.6.1";
      confirmation_code_required = some true;
    })
parse-build_activation_code_example =
    parse-build_activation_code server (codes "ABC-1") (codes "1.3.6.1") (some true) server-IsNamed
      (inl refl)

parse-build_no_oid_example :
    parse_activation_code (build_activation_code server (codes "ABC-1") [] (some true))
    ≡ inr (record {
      code = build_activation_code server (codes "ABC-1") [] (some true);
      smdp = server;
      matching_id = codes "ABC-1";
      oid = codes "1";
      confirmation_code_required = none;
    })
parse-build_no_oid_example = parse-build_no_oid server (codes "ABC-1") true server-IsNamed

-- An `e` with an accent, a Chinese character, and a smiling face.
abbrev points : List ℕ
points = 0x65 ∷ 0xe9 ∷ 0x5361 ∷ 0x1f600 ∷ []

points-IsScalar : All IsScalar points
points-IsScalar = (
  record { bounded = omega arith; no_surrogate = inl (omega arith) },
  (
    record { bounded = omega arith; no_surrogate = inl (omega arith) },
    (
      record { bounded = omega arith; no_surrogate = inl (omega arith) },
      (record { bounded = omega arith; no_surrogate = inr (omega arith) }, tt),
    ),
  ),
)

utf8_from_bytes-utf8_to_bytes_example :
    (utf8_to_bytes (units_of points) ≡ flatten (map utf8 points))
    × (utf8_from_bytes (utf8_to_bytes (units_of points)) ≡ units_of points)
utf8_from_bytes-utf8_to_bytes_example = utf8_from_bytes-utf8_to_bytes points points-IsScalar
