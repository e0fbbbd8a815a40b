-- ===== src/Prelude/Strip.antt =====
-- White space and prefixes of a Python `str`.
use Prim.Native.Nat.{ℕ}
use mathlib.Core.Bool.{Bool, true, false, ◌&&◌, ◌||◌}
use mathlib.Core.Option.{Option, none, some}
use mathlib.Core.List.{[], ◌∷◌, ◌++◌, reverse}
use mathlib.Core.Path.{◌≡◌, refl, sym, ap₂}
use mathlib.Core.Logic.{inl, inr}
use native.Mathlib.Omega.{arith}
use complex_git_sync.Prelude.Tests.{Bool-cases, ==_iff, leb, ◌==◌, if◌then◌else◌}
use complex_git_sync.Prelude.Texts.{Text}

-- `\s` on `str`
unfoldable pub is_white : ℕ → Bool
is_white c =
    leb 9 c && leb c 13
    || leb 28 c && leb c 32
    || c == 133
    || c == 160
    || c == 5760
    || leb 8192 c && leb c 8202
    || c == 8232
    || c == 8233
    || c == 8239
    || c == 8287
    || c == 12288

-- text.removeprefix, where the prefix is there
unfoldable pub after_prefix : Text → Text → Option Text
after_prefix [] text = some text
after_prefix (p ∷ ps) [] = none
after_prefix (p ∷ ps) (c ∷ cs) = let rest = after_prefix ps cs in if p == c then rest else none

abbrev pub starts_with : Text → Text → Bool
starts_with prefix text = elim (after_prefix prefix text) [ none ↦ false | some tail ↦ true ]

unfoldable pub strip_left : Text → Text
unfolding is_white
strip_left [] = []
strip_left (c ∷ cs) = let rest = strip_left cs in if is_white c then rest else c ∷ cs

-- version.strip()
unfoldable pub strip_white : Text → Text
unfolding strip_left
strip_white text = reverse (strip_left (reverse (strip_left text)))

pub after_prefix-append : (p t : Text) → after_prefix p (p ++ t) ≡ some t
unfolding after_prefix
after_prefix-append [] t = refl
after_prefix-append (c ∷ p) t = ground (arith, after_prefix-append p t)

pub after_prefix-some : (p text t : Text) → after_prefix p text ≡ some t → text ≡ p ++ t
unfolding after_prefix
after_prefix-some [] text t e = cc
after_prefix-some (c ∷ p) [] t e = cc
after_prefix-some (c ∷ p) (d ∷ text) t e = elim (Bool-cases (c == d)) [
  | inl same ↦
      ap₂ (λ h r. h ∷ r) (sym ((==_iff c d).0 same)) (after_prefix-some p text t (cc (same, e)))
  | inr differ ↦ cc
]
