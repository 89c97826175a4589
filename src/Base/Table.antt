-- ===== src/Base/Table.antt =====
-- Over a small range, every value is checked by evaluation. No code of the repository is modelled
-- here.
use Prim.Native.Nat.{ℕ, zero, suc, ◌+◌, ◌≤◌, ◌<◌}
use mathlib.Core.Path.{◌≡◌, ◌∙◌, ap, sym}
use mathlib.Core.Logic.{inl, inr, ◌⊎◌}
use mathlib.Core.Bool.{Bool, true, ◌&&◌}
use native.Mathlib.Omega.{arith}
use mt5700_console.Base.Tests.{&&-left, &&-right}

unfoldable pub holds_between : ℕ → ℕ → (ℕ → Bool) → Bool
holds_between start zero test = true
holds_between start (suc count) test = test start && holds_between (suc start) count test

first_or_later : (start x : ℕ) → start ≤ x → (start ≡ x) ⊎ (suc start ≤ x)
first_or_later start x le = ground arith

pub holds_between_lem :
    (test : ℕ → Bool) (start count x : ℕ)
    → holds_between start count test ≡ true
    → start ≤ x
    → x < start + count
    → test x ≡ true
unfolding holds_between
holds_between_lem test start zero x h le lt = absurd (omega arith)
holds_between_lem test start (suc count) x h le lt = elim (first_or_later start x le) [
  | inl e ↦ ap test (sym e) ∙ &&-left _ _ h
  | inr later ↦ holds_between_lem test (suc start) count x (&&-right _ _ h) later (omega arith)
]
