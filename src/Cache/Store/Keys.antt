-- ===== src/Cache/Store/Keys.antt =====
-- Keys: what deleting and listing them does.
use mt5700_console.Base.{
  ℕ, ◌≤◌, ◌<◌, ◌≡◌, refl, sym, ap₂, ◌∙◌, inl, inr, true, false, ◌&&◌, none, some, List, [], ◌∷◌,
  arith, ◌==◌, Bool-cases, length, All, Str, str_eq, str_eq_iff,
}
use mt5700_console.Cache.{includes}
use mt5700_console.Cache.Store.{Entry, delete, lookup, without}

pub str_eq_comm : (a b : Str) → str_eq a b ≡ str_eq b a
unfolding str_eq
str_eq_comm [] [] = refl
str_eq_comm [] (y ∷ b) = refl
str_eq_comm (x ∷ a) [] = refl
str_eq_comm (x ∷ a) (y ∷ b) = ap₂ ◌&&◌ (swap x y) (str_eq_comm a b)
  where
    swap : (m n : ℕ) → (m == n) ≡ (n == m)
    swap m n = ground arith

pub str_eq_refl : (a : Str) → str_eq a a ≡ true
str_eq_refl a = (str_eq_iff a a).1 refl

-- No entry has the key.
abbrev pub Fresh : Str → List (Str × Entry) → Type 0
Fresh k = All (λ kv. str_eq kv.0 k ≡ false)

abbrev pub Distinct : List (Str × Entry) → Type 0
Distinct [] = Unit
Distinct (kv ∷ es) = Fresh kv.0 es × Distinct es

pub delete-Fresh : (k : Str) (es : List (Str × Entry)) → Fresh k (delete k es)
unfolding delete
delete-Fresh k [] = tt
delete-Fresh k (kv ∷ es) = elim (Bool-cases (str_eq kv.0 k)) [
  | inl e ↦ rw e (delete-Fresh k es)
  | inr e ↦ rw e (e, delete-Fresh k es)
]

pub lookup-Fresh : (k : Str) (es : List (Str × Entry)) → lookup k es ≡ none → Fresh k es
unfolding lookup
lookup-Fresh k [] h = tt
lookup-Fresh k (kv ∷ es) h = elim (Bool-cases (str_eq kv.0 k)) [
  | inl e ↦ (let q : some kv.1 ≡ none = rw (e, lookup) at h in cc)
  | inr e ↦ (e, lookup-Fresh k es (rw (e, lookup) at h))
]

pub delete-All :
    (P : Str × Entry → Type 0) (k : Str) (es : List (Str × Entry)) → All P es → All P (delete k es)
unfolding delete
delete-All P k [] h = tt
delete-All P k (kv ∷ es) h = elim (Bool-cases (str_eq kv.0 k)) [
  | inl e ↦ rw e (delete-All P k es h.1)
  | inr e ↦ rw e (h.0, delete-All P k es h.1)
]

pub delete-Distinct : (k : Str) (es : List (Str × Entry)) → Distinct es → Distinct (delete k es)
unfolding delete
delete-Distinct k [] h = tt
delete-Distinct k (kv ∷ es) h = elim (Bool-cases (str_eq kv.0 k)) [
  | inl e ↦ rw e (delete-Distinct k es h.1)
  | inr e ↦ rw e (delete-All (λ x. str_eq x.0 kv.0 ≡ false) k es h.0, delete-Distinct k es h.1)
]

-- Every key stands in the list.
abbrev pub Listed : List Str → List (Str × Entry) → Type 0
Listed order = All (λ kv. includes order kv.0 ≡ true)

pub includes-without :
    (k x : Str) (order : List Str)
    → str_eq x k ≡ false
    → includes order x ≡ true
    → includes (without k order) x ≡ true
unfolding includes without
includes-without k x [] d h = h
includes-without k x (y ∷ order) d h = elim (Bool-cases (str_eq y k)) [
  | inl e ↦ rw e (includes-without k x order d (later e))
  | inr e ↦ rw e (elim (Bool-cases (str_eq y x)) [
    | inl ey ↦ rw ey refl
    | inr ey ↦ rw ey (includes-without k x order d (rw (ey, includes) at h))
  ])
]
  where
    later : str_eq y k ≡ true → includes order x ≡ true
    later e = elim (Bool-cases (str_eq y x)) [
      | inl ey ↦
          (let same : x ≡ k = sym ((str_eq_iff y x).0 ey) ∙ (str_eq_iff y k).0 e in
            let q : true ≡ false = sym ((str_eq_iff x k).1 same) ∙ d in cc)
      | inr ey ↦ rw (ey, includes) at h
    ]

pub Listed-without :
    (k : Str) (order : List Str) (es : List (Str × Entry))
    → Fresh k es
    → Listed order es
    → Listed (without k order) es
Listed-without k order [] f h = tt
Listed-without k order (kv ∷ es) f h =
    (includes-without k kv.0 order f.0 h.0, Listed-without k order es f.1 h.1)

pub length-without : (k : Str) (order : List Str) → length (without k order) ≤ length order
unfolding without
length-without k [] = omega arith
length-without k (x ∷ order) = elim (Bool-cases (str_eq x k)) [
  | inl e ↦ rw e (omega (arith, length-without k order))
  | inr e ↦ rw e (omega (arith, length-without k order))
]

pub length-without_lt :
    (k : Str) (order : List Str) → includes order k ≡ true → length (without k order) < length order
unfolding without includes
length-without_lt k [] h = cc
length-without_lt k (x ∷ order) h = elim (Bool-cases (str_eq x k)) [
  | inl e ↦ rw e (omega (arith, length-without k order))
  | inr e ↦ rw e (omega (arith, length-without_lt k order (rw (e, includes) at h)))
]

-- Different keys that all stand in a list are no more than the list has.
pub length-Listed :
    (order : List Str) (es : List (Str × Entry))
    → Distinct es
    → Listed order es
    → length es ≤ length order
length-Listed order [] d h = omega arith
length-Listed order (kv ∷ es) d h = omega (
  arith,
  length-without_lt kv.0 order h.0,
  length-Listed (without kv.0 order) es d.1 (Listed-without kv.0 order es d.0 h.1),
)
