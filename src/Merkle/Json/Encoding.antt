-- ===== src/Merkle/Json/Encoding.antt =====
-- What is read off an encoding: characters, digits and code points are told apart.
use complex_git_sync.Prelude.{
  ℕ, zero, suc, ◌+◌, ◌-◌, ◌*◌, ◌/◌, ◌%◌, ◌<◌, ◌≡◌, refl, sym, ap, ap₂, ◌∙◌, ◌≢◌, inl, inr, Bool,
  true, false, ◌&&◌, [], ◌∷◌, arith, ltb, leb, if◌then◌else◌, ltb→lt, Bool-cases, Text, Bytes,
}
use complex_git_sync.Merkle.Json.{digits, escape_char, escape, utf8_char, utf8}

utf8_char-inj : (c d : ℕ) (r s : Bytes) → utf8_char c r ≡ utf8_char d s → (c ≡ d) × (r ≡ s)
unfolding utf8_char
utf8_char-inj c d r s e = ground arith

utf8_char-ne-nil : (c : ℕ) (r : Bytes) → utf8_char c r ≢ []
unfolding utf8_char
utf8_char-ne-nil c r = ground arith

-- Two texts with one encoding are equal.
pub utf8-inj : (s t : Text) → utf8 s ≡ utf8 t → s ≡ t
utf8-inj [] [] e = refl
utf8-inj [] (d ∷ t) e = unfold utf8 in absurd (utf8_char-ne-nil d (utf8 t) (sym e))
utf8-inj (c ∷ s) [] e = unfold utf8 in absurd (utf8_char-ne-nil c (utf8 s) e)
utf8-inj (c ∷ s) (d ∷ t) e =
    let h : (c ≡ d) × (utf8 s ≡ utf8 t) = utf8_char-inj c d (utf8 s) (utf8 t) (unfold utf8 in e) in
    ap₂ (λ x xs. x ∷ xs) h.0 (utf8-inj s t h.1)

escape_char-inj : (c d : ℕ) (r s : Text) → escape_char c r ≡ escape_char d s → (c ≡ d) × (r ≡ s)
unfolding escape_char
escape_char-inj c d r s e = ground arith

-- No escaped character begins with the closing quote.
escape_char-ne-quote : (c : ℕ) (r s : Text) → escape_char c r ≢ 34 ∷ s
unfolding escape_char
escape_char-ne-quote c r s = ground arith

pub escape-inj : (a b r s : Text) → escape a r ≡ escape b s → (a ≡ b) × (r ≡ s)
escape-inj [] [] r s e = (refl, (unfold escape in cc))
escape-inj [] (d ∷ b) r s e =
    absurd (escape_char-ne-quote d (escape b s) r (unfold escape in sym e))
escape-inj (c ∷ a) [] r s e = absurd (escape_char-ne-quote c (escape a r) s (unfold escape in e))
escape-inj (c ∷ a) (d ∷ b) r s e =
    let h : (c ≡ d) × (escape a r ≡ escape b s) =
      escape_char-inj c d (escape a r) (escape b s) (unfold escape in e) in
    let t : (a ≡ b) × (r ≡ s) = escape-inj a b r s h.1 in (ap₂ (λ x xs. x ∷ xs) h.0 t.0, t.1)

abbrev pub is_digit : ℕ → Bool
is_digit c = leb 48 c && leb c 57

-- `rest` does not go on with a digit.
abbrev pub Stops : Text → Type 0
Stops [] = Unit
Stops (c ∷ rest) = is_digit c ≡ false

-- The number that the digits at the front continue, and what follows them.
read : ℕ → Text → ℕ × Text
read n [] = (n, [])
read n (c ∷ rest) =
    let more = read (n * 10 + (c - 48)) rest in if is_digit c then more else (n, c ∷ rest)

read-stop : (n : ℕ) (rest : Text) → Stops rest → read n rest ≡ (n, rest)
unfolding read
read-stop n [] h = refl
read-stop n (c ∷ rest) h = rw h

read-digit : (n d : ℕ) (rest : Text) → d < 10 → read n ((48 + d) ∷ rest) ≡ read (n * 10 + d) rest
read-digit n d rest h =
    let e : is_digit (48 + d) ≡ true = ground arith in
    let k : 48 + d - 48 ≡ d = omega arith in unfold read in rw (e, k) refl

digits-small :
    (fuel n : ℕ) (rest : Text) → ltb n 10 ≡ true → digits (suc fuel) n rest ≡ (48 + n) ∷ rest
unfolding digits
digits-small fuel n rest h = rw h

digits-large :
    (fuel n : ℕ) (rest : Text)
    → ltb n 10 ≡ false
    → digits (suc fuel) n rest ≡ digits fuel (n / 10) ((48 + n % 10) ∷ rest)
unfolding digits
digits-large fuel n rest h = rw h

read-digits : (fuel n : ℕ) (rest : Text) → n < fuel → read 0 (digits fuel n rest) ≡ read n rest
read-digits zero n rest h = elim h [ ]
read-digits (suc fuel) n rest h = elim (Bool-cases (ltb n 10)) [
  | inl small ↦
      rw (digits-small fuel n rest small)
        (read-digit 0 n rest (ltb→lt _ _ small) ∙ ap (λ m. read m rest) (omega arith))
  | inr large ↦ rw (digits-large fuel n rest large) (
      read-digits fuel (n / 10) _ (ground arith)
      ∙ read-digit (n / 10) (n % 10) rest (omega arith)
      ∙ ap (λ m. read m rest) (omega arith))
]

pub digits-inj :
    (n m : ℕ) (r s : Text)
    → Stops r
    → Stops s
    → digits (suc n) n r ≡ digits (suc m) m s
    → (n ≡ m) × (r ≡ s)
digits-inj n m r s h k e =
    let p : (n, r) ≡ (m, s) =
      sym (read-stop n r h)
      ∙ sym (read-digits (suc n) n r (omega arith))
      ∙ ap (read 0) e
      ∙ read-digits (suc m) m s (omega arith)
      ∙ read-stop m s k in
    (ap (λ (q : ℕ × Text). q.0) p, ap (λ (q : ℕ × Text). q.1) p)

abbrev pub StartsWithDigit : Text → Type 0
StartsWithDigit [] = ⊥
StartsWithDigit (c ∷ rest) = is_digit c ≡ true

pub digits-StartsWithDigit :
    (fuel n : ℕ) (rest : Text) → n < fuel → StartsWithDigit (digits fuel n rest)
digits-StartsWithDigit zero n rest h = elim h [ ]
digits-StartsWithDigit (suc fuel) n rest h = elim (Bool-cases (ltb n 10)) [
  | inl small ↦ rw (digits-small fuel n rest small) (ground arith)
  | inr large ↦
      rw (digits-large fuel n rest large) (digits-StartsWithDigit fuel (n / 10) _ (ground arith))
]
