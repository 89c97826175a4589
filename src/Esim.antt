-- ===== src/Esim.antt =====
-- The commands for the eSIM of euicc.js: what can go wrong, the state that the module keeps, and
-- the chains of promises as a monad.
pub mod Texts
pub mod Apdus
pub mod Answers
pub mod Exchange
pub mod Session
pub mod Binds
pub mod Codes
pub mod Chunks
pub mod Profiles
pub mod Late
pub mod Utf8
mod ChunkTests
mod CodeTests
mod LateTests
mod ProfileTests
mod Tests
pub mod Growth
use mt5700_console.Base.{
  ℕ, zero, suc, ◌+◌, ◌-◌, ◌*◌, ◌/◌, ◌%◌, ◌^◌, ◌≤◌, ◌<◌, min, max, ◌≡◌, refl, sym, ap, ap₂, ◌∙◌, ◌≢◌,
  ◌↔◌, ◌⊎◌, inl, inr, Bool, true, false, not, ◌&&◌, ◌||◌, Option, none, some, List, [], ◌∷◌, ◌++◌,
  map, append-nil, append_assoc, arith, ltb, leb, ◌==◌, if◌then◌else◌, ltb→lt, ==_iff, Bool-cases,
  Option-cases, &&-left, &&-right, some_inj, length, get_elem?, get_or, take, drop, replicate,
  flatten, all, All, length-append, take-length-append, drop-length-append, take-append-drop,
  length-take, length-drop, flatten-append, All-append, All-take, All-drop, Str, codes, str_eq,
  str_eq_iff, starts_with, index_of, hex_digit, hex_value, hex_value-hex_digit, hex2, IsByte,
  IsUnit16, is_text,
}

-- The codes of the errors; `send_rejected` is a promise of `send` that is rejected.
pub data Code : Type 0 where
  bad_hex bad_apdu tlv_truncated unsupported_tag at_error no_card no_channel no_euicc busy : Code
  policy_denied op_failed csim_truncated send_rejected : Code

-- An error without its texts: its code, and the marks that the callers read.
pub record Failure : Type 0 where
  pub code : Code
  pub sw : Option Str
  pub channel_unsupported : Bool
  pub maybe_no_euicc : Bool
  pub result : Option ℕ

abbrev pub failure : Code → Failure
failure k = record {
  code = k;
  sw = none;
  channel_unsupported = false;
  maybe_no_euicc = false;
  result = none;
}

-- `TRANSPORT`.
pub data Transport : Type 0 where
  csim cgla : Transport

abbrev pub is_csim : Transport → Bool
is_csim csim = true
is_csim cgla = false

-- `{ success, data, error }`; `text` is none where `data` is not a string.
pub record Reply : Type 0 where
  pub success : Bool
  pub text : Option Str
  pub error : Str

-- A modem answers a command by what it was sent before: the commands, the newest first. `none` is
-- a promise that is rejected.
abbrev pub Modem : Type 0
Modem = List Str → Option Reply

-- The commands that were sent, the newest first, `lastChannel`, and the two numbers of
-- `channelLeakNote`.
pub record Client : Type 0 where
  pub sent : List Str
  pub last_channel : ℕ
  pub channel_leak_note : Option (ℕ × ℕ)

-- A chain of promises that runs to its end: the state behind it, and the error or the value.
abbrev pub M : Type 0 → Type 0
M A = Client → Client × (Failure ⊎ A)

abbrev pub pure : {A : Type 0} → A → M A
pure a c = (c, inr a)

abbrev pub throw : {A : Type 0} → Failure → M A
throw e c = (c, inl e)

infixl 5 ◌>>=◌ ◌>>◌
abbrev pub ◌>>=◌ : {A B : Type 0} → M A → (A → M B) → M B
◌>>=◌ m f c = let r = m c in elim r.1 [ inl e ↦ (r.0, inl e) | inr a ↦ f a r.0 ]

abbrev pub ◌>>◌ : {B : Type 0} → M (Unit {0}) → M B → M B
m >> k = m >>= λ _. k

-- `.catch`.
abbrev pub catch : {A : Type 0} → M A → (Failure → M A) → M A
catch m f c = let r = m c in elim r.1 [ inl e ↦ f e r.0 | inr a ↦ (r.0, inr a) ]

abbrev pub lift : {A : Type 0} → Failure ⊎ A → M A
lift r c = (c, r)
