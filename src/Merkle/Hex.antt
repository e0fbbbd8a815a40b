-- ===== src/Merkle/Hex.antt =====
-- `bytes.hex` and `bytes.fromhex`, as merkle/merkle_root.py uses them.
use complex_git_sync.Prelude.{
  ℕ, ◌+◌, ◌-◌, ◌*◌, ◌/◌, ◌%◌, ◌<◌, ◌≡◌, refl, sym, ap, ap₂, ◌∙◌, Bool, false, ◌&&◌, ◌||◌, Option,
  none, some, [], ◌∷◌, arith, ltb, leb, ◌==◌, if◌then◌else◌, All, cons_head, cons_tail, nil_ne_cons,
  Text, Bytes,
}

unfoldable pub hex_digit : ℕ → ℕ
hex_digit n = if ltb n 10 then 48 + n else 87 + n

-- data.hex()
unfoldable pub hex : Bytes → Text
unfolding hex_digit
hex [] = []
hex (b ∷ bs) = hex_digit (b / 16) ∷ hex_digit (b % 16) ∷ hex bs

is_space : ℕ → Bool
is_space c = c == 32 || leb 9 c && leb c 13

hex_value : ℕ → Option ℕ
hex_value c =
    if leb 48 c && leb c 57
    then some (c - 48)
    else if leb 97 c && leb c 102
    then some (c - 87)
    else if leb 65 c && leb c 70
    then some (c - 55)
    else none

push_byte : Option ℕ → Option ℕ → Option Bytes → Option Bytes
push_byte (some top) (some bot) (some rest) = some ((top * 16 + bot) ∷ rest)
push_byte _ _ _ = none

-- bytes.fromhex(text): white space may stand between two bytes; `none` is the `ValueError`.
unfoldable pub from_hex : Text → Option Bytes
unfolding is_space hex_value push_byte
from_hex [] = some []
from_hex (c ∷ []) = if is_space c then some [] else none
from_hex (c ∷ d ∷ rest) =
    let skipped = from_hex (d ∷ rest) in
    let pair = push_byte (hex_value c) (hex_value d) (from_hex rest) in
    if is_space c then skipped else pair

abbrev pub IsByte : ℕ → Type 0
IsByte b = b < 256

is_space-hex_digit : (a : ℕ) → a < 16 → is_space (hex_digit a) ≡ false
unfolding is_space hex_digit
is_space-hex_digit a h = ground arith

hex_value-hex_digit : (a : ℕ) → a < 16 → hex_value (hex_digit a) ≡ some a
unfolding hex_value hex_digit
hex_value-hex_digit a h = ground arith

from_hex-digits :
    (a b : ℕ) (rest : Text)
    → a < 16
    → b < 16
    → from_hex (hex_digit a ∷ hex_digit b ∷ rest) ≡ push_byte (some a) (some b) (from_hex rest)
from_hex-digits a b rest h k =
    unfold from_hex in
    rw (is_space-hex_digit a h, hex_value-hex_digit a h, hex_value-hex_digit b k) refl

-- What `hex` writes, `from_hex` reads back.
pub from_hex-hex : (bs : Bytes) → All IsByte bs → from_hex (hex bs) ≡ some bs
unfolding hex push_byte
from_hex-hex [] h = unfold from_hex in refl
from_hex-hex (b ∷ bs) h =
    from_hex-digits (b / 16) (b % 16) (hex bs) (omega arith) (omega arith)
    ∙ rw (from_hex-hex bs h.1) (ap (λ n. some (n ∷ bs)) (omega arith))

hex_digit-inj : (a b : ℕ) → hex_digit a ≡ hex_digit b → a ≡ b
unfolding hex_digit
hex_digit-inj a b e = ground arith

-- Two byte strings with one hexadecimal form are equal.
pub hex-inj : (xs ys : Bytes) → hex xs ≡ hex ys → xs ≡ ys
unfolding hex
hex-inj [] [] e = refl
hex-inj [] (y ∷ ys) e = absurd (nil_ne_cons e)
hex-inj (x ∷ xs) [] e = absurd (nil_ne_cons (sym e))
hex-inj (x ∷ xs) (y ∷ ys) e =
    let hi : x / 16 ≡ y / 16 = hex_digit-inj _ _ (cons_head e) in
    let lo : x % 16 ≡ y % 16 = hex_digit-inj _ _ (cons_head (cons_tail e)) in
    ap₂ (λ b bs. b ∷ bs) (omega arith) (hex-inj xs ys (cons_tail (cons_tail e)))
