-- ===== src/Memory/Store/Names.antt =====
-- The names of the entry files (`entry_path` and `_ENTRY_FILENAME_RE` of
-- tree/memory/ledger_store.py): the number is read back.
use complex_git_sync.Prelude.{
  ℕ, zero, suc, ◌+◌, ◌-◌, ◌*◌, ◌/◌, ◌%◌, ◌≤◌, ◌<◌, ◌≡◌, refl, ap, ◌∙◌, ◌⊎◌, inl, inr, true, false,
  ◌&&◌, none, some, ◌∷◌, arith, leb, ◌==◌, Text, codes, text_eq,
}
use complex_git_sync.Memory.Store.{
  padded_fuel, padded, entry_name, is_toml_end, seq_digits, seq_of_name,
}

padded_fuel-step :
    (fuel width n : ℕ) (rest : Text)
    → padded_fuel (suc fuel) (suc width) n rest
      ≡ padded_fuel fuel width (n / 10) ((48 + n % 10) ∷ rest)
unfolding padded_fuel
padded_fuel-step fuel width n rest = ground arith

padded_fuel-stop : (fuel : ℕ) (rest : Text) → padded_fuel fuel 0 0 rest ≡ rest
unfolding padded_fuel
padded_fuel-stop zero rest = refl
padded_fuel-stop (suc fuel) rest = refl

-- The `width` lowest digits before `rest`, and the number without them.
abbrev low_digits : ℕ → ℕ → Text → Text
low_digits zero n rest = rest
low_digits (suc width) n rest = low_digits width (n / 10) ((48 + n % 10) ∷ rest)

abbrev without_low : ℕ → ℕ → ℕ
without_low zero n = n
without_low (suc width) n = without_low width (n / 10)

padded_fuel-low_digits :
    (width fuel n : ℕ) (rest : Text)
    → padded_fuel (fuel + width) width n rest
      ≡ padded_fuel fuel 0 (without_low width n) (low_digits width n rest)
padded_fuel-low_digits zero fuel n rest = ap (λ f. padded_fuel f 0 n rest) (omega arith)
padded_fuel-low_digits (suc width) fuel n rest =
    ap (λ f. padded_fuel f (suc width) n rest) one_more
    ∙ padded_fuel-step (fuel + width) width n rest
    ∙ padded_fuel-low_digits width fuel (n / 10) ((48 + n % 10) ∷ rest)
  where
    one_more : fuel + suc width ≡ suc (fuel + width)
    one_more = omega arith

padded-low_digits : (n : ℕ) (rest : Text) → n < 1000000 → padded n rest ≡ low_digits 6 n rest
unfolding padded
padded-low_digits n rest small =
    padded_fuel-low_digits 6 n n rest
    ∙ ap (λ m. padded_fuel n 0 m (low_digits 6 n rest)) gone
    ∙ padded_fuel-stop n (low_digits 6 n rest)
  where
    gone : n / 10 / 10 / 10 / 10 / 10 / 10 ≡ 0
    gone = omega arith

seq_digits-step :
    (left n d : ℕ) (cs : Text)
    → d < 10
    → seq_digits (suc left) n ((48 + d) ∷ cs) ≡ seq_digits left (n * 10 + d) cs
unfolding seq_digits
seq_digits-step left n d cs small = rw is_digit (ap (λ m. seq_digits left (n * 10 + m) cs) value)
  where
    is_digit : (leb 48 (48 + d) && leb (48 + d) 57) ≡ true
    is_digit = ground arith

    value : 48 + d - 48 ≡ d
    value = omega arith

seq_digits-end : (n : ℕ) → seq_digits 0 n (codes ".toml") ≡ some n
unfolding seq_digits is_toml_end text_eq
seq_digits-end n = refl

-- Six digits that are read, the highest first.
seq_digits-six :
    (a b c d e f : ℕ)
    → a < 10
    → b < 10
    → c < 10
    → d < 10
    → e < 10
    → f < 10
    → seq_digits 6 0
        ((48 + a) ∷ (48 + b) ∷ (48 + c) ∷ (48 + d) ∷ (48 + e) ∷ (48 + f) ∷ codes ".toml")
      ≡ some ((((((0 * 10 + a) * 10 + b) * 10 + c) * 10 + d) * 10 + e) * 10 + f)
seq_digits-six a b c d e f ha hb hc hd he hf =
    seq_digits-step 5 0 a _ ha
    ∙ seq_digits-step 4 _ b _ hb
    ∙ seq_digits-step 3 _ c _ hc
    ∙ seq_digits-step 2 _ d _ hd
    ∙ seq_digits-step 1 _ e _ he
    ∙ seq_digits-step 0 _ f (codes ".toml") hf
    ∙ seq_digits-end _

-- The number in the name of an entry's file is the entry's, below a million.
pub seq_of_name-entry_name : (n : ℕ) → n < 1000000 → seq_of_name (entry_name n) ≡ some n
unfolding entry_name seq_of_name
seq_of_name-entry_name n small =
    ap (seq_digits 6 0) (padded-low_digits n (codes ".toml") small)
    ∙ seq_digits-six (n / 10 / 10 / 10 / 10 / 10 % 10) (n / 10 / 10 / 10 / 10 % 10)
        (n / 10 / 10 / 10 % 10) (n / 10 / 10 % 10) (n / 10 % 10) (n % 10) (omega arith)
        (omega arith) (omega arith) (omega arith) (omega arith) (omega arith)
    ∙ ap some whole
  where
    whole :
        ((((((0 * 10 + n / 10 / 10 / 10 / 10 / 10 % 10) * 10 + n / 10 / 10 / 10 / 10 % 10) * 10
                      + n / 10 / 10 / 10 % 10)
                    * 10
                  + n / 10 / 10 % 10)
                * 10
              + n / 10 % 10)
            * 10
          + n % 10)
        ≡ n
    whole = omega arith

padded_fuel-more :
    (fuel n : ℕ) (rest : Text)
    → 0 < n
    → padded_fuel (suc fuel) 0 n rest ≡ padded_fuel fuel 0 (n / 10) ((48 + n % 10) ∷ rest)
unfolding padded_fuel
padded_fuel-more fuel n rest pos = ground arith

padded-seven :
    (n : ℕ) (rest : Text)
    → 1000000 ≤ n
    → n < 10000000
    → padded n rest ≡ (48 + without_low 6 n % 10) ∷ low_digits 6 n rest
unfolding padded
padded-seven zero rest big small = absurd (omega arith)
padded-seven (suc m) rest big small =
    padded_fuel-low_digits 6 (suc m) (suc m) rest
    ∙ padded_fuel-more m (without_low 6 (suc m)) (low_digits 6 (suc m) rest) positive
    ∙ ap (λ q. padded_fuel m 0 q ((48 + without_low 6 (suc m) % 10) ∷ low_digits 6 (suc m) rest))
        gone
    ∙ padded_fuel-stop m ((48 + without_low 6 (suc m) % 10) ∷ low_digits 6 (suc m) rest)
  where
    positive : 0 < suc m / 10 / 10 / 10 / 10 / 10 / 10
    positive = omega arith

    gone : suc m / 10 / 10 / 10 / 10 / 10 / 10 / 10 ≡ 0
    gone = omega arith

seq_digits-digit : (n d : ℕ) (cs : Text) → seq_digits 0 n ((48 + d) ∷ cs) ≡ none
unfolding seq_digits is_toml_end text_eq
seq_digits-digit n d cs = ground arith

-- A seventh digit after six is not the end of a name.
seq_digits-seven :
    (a b c d e f g : ℕ) (cs : Text)
    → a < 10
    → b < 10
    → c < 10
    → d < 10
    → e < 10
    → f < 10
    → seq_digits 6 0
        ((48 + a) ∷ (48 + b) ∷ (48 + c) ∷ (48 + d) ∷ (48 + e) ∷ (48 + f) ∷ (48 + g) ∷ cs)
      ≡ none
seq_digits-seven a b c d e f g cs ha hb hc hd he hf =
    seq_digits-step 5 0 a _ ha
    ∙ seq_digits-step 4 _ b _ hb
    ∙ seq_digits-step 3 _ c _ hc
    ∙ seq_digits-step 2 _ d _ hd
    ∙ seq_digits-step 1 _ e _ he
    ∙ seq_digits-step 0 _ f ((48 + g) ∷ cs) hf
    ∙ seq_digits-digit _ g cs

-- The name of the file of an entry with a number of seven digits is not the name of an entry.
pub seq_of_name-entry_name-none :
    (n : ℕ) → 1000000 ≤ n → n < 10000000 → seq_of_name (entry_name n) ≡ none
unfolding entry_name seq_of_name
seq_of_name-entry_name-none n big small =
    ap (seq_digits 6 0) (padded-seven n (codes ".toml") big small)
    ∙ seq_digits-seven (n / 10 / 10 / 10 / 10 / 10 / 10 % 10) (n / 10 / 10 / 10 / 10 / 10 % 10)
        (n / 10 / 10 / 10 / 10 % 10) (n / 10 / 10 / 10 % 10) (n / 10 / 10 % 10) (n / 10 % 10)
        (n % 10) (codes ".toml") (omega arith) (omega arith) (omega arith) (omega arith)
        (omega arith) (omega arith)

text_eq-digit :
    (c d : ℕ) (xs ys : Text)
    → (c == 48 + d % 10) ≡ false
    → text_eq (c ∷ xs) ((48 + d % 10) ∷ ys) ≡ false
unfolding text_eq
text_eq-digit c d xs ys h = rw h refl

-- A text that does not start with a digit is not the name of an entry's file.
pub text_eq-entry_name :
    (n c : ℕ) (xs : Text) → n < 1000000 → c < 48 ⊎ 57 < c → text_eq (c ∷ xs) (entry_name n) ≡ false
unfolding entry_name
text_eq-entry_name n c xs small other =
    ap (text_eq (c ∷ xs)) (padded-low_digits n (codes ".toml") small)
    ∙ text_eq-digit c (n / 10 / 10 / 10 / 10 / 10) xs _ (not_digit other)
  where
    not_digit : c < 48 ⊎ 57 < c → (c == 48 + n / 10 / 10 / 10 / 10 / 10 % 10) ≡ false
    not_digit (inl low) = ground arith
    not_digit (inr high) = ground arith
