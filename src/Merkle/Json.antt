-- ===== src/Merkle/Json.antt =====
-- `canonical_json` of merkle/merkle_root.py: `json.dumps` with sorted keys and no white space, in
-- UTF-8. A value of JSON has the integers from 0 on; the program hashes no other number.
pub mod Encoding
pub mod Injective
pub mod Reordered
pub mod Lookup
use complex_git_sync.Prelude.{
  ℕ, zero, suc, ◌+◌, ◌/◌, ◌%◌, Bool, true, false, Option, none, some, [], ◌∷◌, ltb, ◌==◌,
  if◌then◌else◌, Text, Bytes, text_eq, text_lt,
}
use complex_git_sync.Merkle.Hex.{hex_digit}

mutual
  pub data Json : Type 0 where
    null : Json
    boolean : Bool → Json
    num : ℕ → Json
    str : Text → Json
    arr : Items → Json
    obj : Members → Json

  pub data Items : Type 0 where
    nil : Items
    cons : Json → Items → Items

  pub data Members : Type 0 where
    end : Members
    field : Text → Json → Members → Members

-- payload.get(key)
unfoldable pub get : Members → Text → Option Json
get end key = none
get (field k v ms) key = if text_eq k key then some v else get ms key

-- payload[key] = value: in place where the key is there, else at the end.
unfoldable pub put : Members → Text → Json → Members
put end key value = field key value end
put (field k v ms) key value =
    if text_eq k key then field k value ms else field k v (put ms key value)

-- sort_keys=True
unfoldable pub insert_member : Text → Json → Members → Members
insert_member k v end = field k v end
insert_member k v (field j w ms) =
    if text_lt j k then field j w (insert_member k v ms) else field k v (field j w ms)

-- The value with the keys of each object in order.
unfoldable mutual
  unfolding insert_member

  pub normalise : Json → Json
  normalise (arr xs) = arr (normalise_items xs)
  normalise (obj ms) = obj (normalise_members ms)
  normalise v = v

  pub normalise_items : Items → Items
  normalise_items nil = nil
  normalise_items (cons x xs) = cons (normalise x) (normalise_items xs)

  pub normalise_members : Members → Members
  normalise_members end = end
  normalise_members (field k v ms) = insert_member k (normalise v) (normalise_members ms)

-- The decimal digits of `n`, before `rest`.
unfoldable pub digits : ℕ → ℕ → Text → Text
digits zero n rest = rest
digits (suc fuel) n rest =
    let more = digits fuel (n / 10) ((48 + n % 10) ∷ rest) in
    if ltb n 10 then (48 + n) ∷ rest else more

-- One character of a string, escaped as `ensure_ascii=False` does.
unfoldable pub escape_char : ℕ → Text → Text
unfolding hex_digit
escape_char c rest =
    if c == 34
    then 92 ∷ 34 ∷ rest
    else if c == 92
    then 92 ∷ 92 ∷ rest
    else if c == 8
    then 92 ∷ 98 ∷ rest
    else if c == 12
    then 92 ∷ 102 ∷ rest
    else if c == 10
    then 92 ∷ 110 ∷ rest
    else if c == 13
    then 92 ∷ 114 ∷ rest
    else if c == 9
    then 92 ∷ 116 ∷ rest
    else if ltb c 32
    then 92 ∷ 117 ∷ 48 ∷ 48 ∷ hex_digit (c / 16) ∷ hex_digit (c % 16) ∷ rest
    else c ∷ rest

unfoldable pub escape : Text → Text → Text
unfolding escape_char
escape [] rest = 34 ∷ rest
escape (c ∷ cs) rest = escape_char c (escape cs rest)

-- `print v rest` is the text of `v`, before `rest`.
unfoldable mutual
  unfolding digits escape

  pub print : Json → Text → Text
  print null rest = b'n' ∷ b'u' ∷ b'l' ∷ b'l' ∷ rest
  print (boolean true) rest = b't' ∷ b'r' ∷ b'u' ∷ b'e' ∷ rest
  print (boolean false) rest = b'f' ∷ b'a' ∷ b'l' ∷ b's' ∷ b'e' ∷ rest
  print (num n) rest = digits (suc n) n rest
  print (str s) rest = 34 ∷ escape s rest
  print (arr nil) rest = 91 ∷ 93 ∷ rest
  print (arr (cons x xs)) rest = 91 ∷ print x (print_items xs rest)
  print (obj end) rest = 123 ∷ 125 ∷ rest
  print (obj (field k v ms)) rest = 123 ∷ 34 ∷ escape k (58 ∷ print v (print_members ms rest))

  pub print_items : Items → Text → Text
  print_items nil rest = 93 ∷ rest
  print_items (cons x xs) rest = 44 ∷ print x (print_items xs rest)

  pub print_members : Members → Text → Text
  print_members end rest = 125 ∷ rest
  print_members (field k v ms) rest = 44 ∷ 34 ∷ escape k (58 ∷ print v (print_members ms rest))

-- One code point in UTF-8.
unfoldable pub utf8_char : ℕ → Bytes → Bytes
utf8_char c rest =
    if ltb c 128
    then c ∷ rest
    else if ltb c 2048
    then (192 + c / 64) ∷ (128 + c % 64) ∷ rest
    else if ltb c 65536
    then (224 + c / 4096) ∷ (128 + c / 64 % 64) ∷ (128 + c % 64) ∷ rest
    else (240 + c / 262144) ∷ (128 + c / 4096 % 64) ∷ (128 + c / 64 % 64) ∷ (128 + c % 64) ∷ rest

-- text.encode("utf-8")
unfoldable pub utf8 : Text → Bytes
unfolding utf8_char
utf8 [] = []
utf8 (c ∷ cs) = utf8_char c (utf8 cs)

-- MerkleRoot.canonical_json
unfoldable pub canonical_json : Json → Bytes
unfolding utf8 print normalise
canonical_json payload = utf8 (print (normalise payload) [])
