-- ===== src/Locks.antt =====
-- The commands that lock bands, channels and cells: `getDefaultScsType`, `checkArfcn`, `checkPci`,
-- `toLockLists` and `buildLockCommand` of parse.js.
pub mod Limits
mod Tests
use mt5700_console.Base.{
  ℕ, zero, suc, ◌+◌, ◌-◌, ◌*◌, ◌/◌, ◌%◌, ◌^◌, ◌≤◌, ◌<◌, min, max, ◌≡◌, refl, sym, ap, ap₂, ◌∙◌, ◌≢◌,
  ◌↔◌, ◌⊎◌, inl, inr, Bool, true, false, not, ◌&&◌, ◌||◌, Option, none, some, List, [], ◌∷◌, ◌++◌,
  map, append-nil, append_assoc, arith, ltb, leb, ◌==◌, if◌then◌else◌, ltb→lt, ==_iff, Bool-cases,
  Option-cases, &&-left, &&-right, some_inj, length, get_elem?, get_or, take, drop, replicate,
  flatten, all, All, length-append, take-length-append, drop-length-append, take-append-drop,
  length-take, length-drop, flatten-append, All-append, All-take, All-drop, Str, codes, str_eq,
  str_eq_iff, starts_with, index_of, hex_digit, hex_value, hex_value-hex_digit, hex2, IsByte,
  IsUnit16, is_text,
}
use mt5700_console.Cache.{trim}
use mt5700_console.Sms.Commands.{decimal}

pub data Kind : Type 0 where
  lte nr : Kind

-- An item of the page; the texts are empty where they are missing.
pub record LockItem : Type 0 where
  pub band : Option ℕ
  pub arfcn : Str
  pub scs : Option ℕ
  pub pci : Str

pub record LockLists : Type 0 where
  pub bands : Str
  pub arfcns : Str
  pub scs_types : Str
  pub pcis : Str

abbrev pub max_lock_items : ℕ
max_lock_items = 20

abbrev pub max_arfcn : ℕ
max_arfcn = 4294967295

abbrev pub max_pci : Kind → ℕ
max_pci lte = 503
max_pci nr = 1007

unfoldable pub get_default_scs_type : ℕ → ℕ
get_default_scs_type band =
    if band == 257 || (band == 258 || (band == 260 || band == 261))
    then 3
    else if band == 41 || (band == 48 || (band == 77 || (band == 78 || band == 79)))
    then 1
    else 0

-- `Number(raw)` on digits.
unfoldable pub number_of : ℕ → Str → ℕ
number_of acc [] = acc
number_of acc (c ∷ s) = number_of (acc * 10 + (c - 48)) s

-- `checkArfcn` and `checkPci`: digits, and a number within the limit. `none` is the exception.
unfoldable pub check_number : ℕ → Str → Option Str
check_number limit raw =
    if not (is_text raw && all (λ c. leb 48 c && leb c 57) raw)
    then none
    else if ltb limit (number_of 0 raw)
    then none
    else some raw

-- `.map(check)`, which ends at the first exception.
unfoldable pub check_all : ℕ → List Str → Option (List Str)
check_all limit [] = some []
check_all limit (x ∷ xs) =
    let rest = check_all limit xs in
    elim (check_number limit x) [
      | none ↦ none
      | some y ↦ elim rest [ none ↦ none | some ys ↦ some (y ∷ ys) ]
    ]

-- `.join(',')`.
unfoldable pub join_commas : List Str → Str
join_commas [] = []
join_commas (x ∷ []) = x
join_commas (x ∷ y ∷ xs) = x ++ (44 ∷ join_commas (y ∷ xs))

unfoldable pub split_count : Str → ℕ
split_count [] = 1
split_count (c ∷ s) = if c == 44 then 1 + split_count s else split_count s

-- The items with a band, each with it.
unfoldable pub valid_items : List LockItem → List (ℕ × LockItem)
valid_items [] = []
valid_items (i ∷ is) =
    let rest = valid_items is in elim i.band [ none ↦ rest | some b ↦ (b, i) ∷ rest ]

abbrev scs_of : ℕ × LockItem → Str
scs_of p = elim p.1.scs [ none ↦ decimal (get_default_scs_type p.0) | some s ↦ decimal s ]

abbrev scs_list : Kind → List (ℕ × LockItem) → Str
scs_list lte valid = []
scs_list nr valid = join_commas (map (λ p. scs_of p) valid)

-- Behind the tests of the number of items.
unfoldable pub lists_of : Kind → ℕ → List (ℕ × LockItem) → Option LockLists
unfolding check_all join_commas
lists_of kind type valid =
    let bands = join_commas (map (λ p. decimal p.0) valid) in
    let scs_types = scs_list kind valid in
    if type == 3
    then some (record { bands = bands; arfcns = []; scs_types = []; pcis = [] })
    else elim (check_all max_arfcn (map (λ p. trim p.1.arfcn) valid)) [
      | none ↦ none
      | some arfcns ↦
          if type == 1
          then some (record {
            bands = bands;
            arfcns = join_commas arfcns;
            scs_types = scs_types;
            pcis = [];
          })
          else elim (check_all (max_pci kind) (map (λ p. trim p.1.pci) valid)) [
            | none ↦ none
            | some pcis ↦ some (record {
              bands = bands;
              arfcns = join_commas arfcns;
              scs_types = scs_types;
              pcis = join_commas pcis;
            })
          ]
    ]

unfoldable pub to_lock_lists : Kind → ℕ → List LockItem → Option LockLists
unfolding lists_of valid_items
to_lock_lists kind type items =
    let n = length (valid_items items) in
    if type == 0
    then some (record { bands = []; arfcns = []; scs_types = []; pcis = [] })
    else if n == 0 || ltb max_lock_items n
    then none
    else lists_of kind type (valid_items items)

abbrev lock_name : Kind → Str
lock_name lte = codes "AT^LTEFREQLOCK"
lock_name nr = codes "AT^NRFREQLOCK"

-- `,"` and a list and `"`.
abbrev quoted : Str → Str
quoted s = codes ",\"" ++ (s ++ (34 ∷ []))

abbrev lock_tail : Kind → ℕ → LockLists → Str
lock_tail lte type l = quoted l.arfcns ++ (if type == 1 then [] else quoted l.pcis)
lock_tail nr type l =
    quoted l.arfcns ++ (quoted l.scs_types ++ (if type == 1 then [] else quoted l.pcis))

unfoldable pub build_lock_command : Kind → ℕ → ℕ → List LockItem → Option Str
unfolding to_lock_lists split_count
build_lock_command kind type mobility items =
    if type == 0
    then some (lock_name kind ++ codes "=0")
    else elim (to_lock_lists kind type items) [
      | none ↦ none
      | some l ↦ some (
          lock_name kind
          ++ (61
              ∷ (decimal type
                  ++ (44
                      ∷ (decimal mobility
                          ++ (44
                              ∷ (decimal (split_count l.bands)
                                  ++ (quoted l.bands
                                      ++ (if type == 3 then [] else lock_tail kind type l)))))))))
    ]
