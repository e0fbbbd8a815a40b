-- ===== src/Tests/Codec.antt =====
-- A codec of tables that reads back the table that was written, for the theorem that takes one. The
-- first number is fuel for the reader, each value starts with the number of its constructor.
use complex_git_sync.Prelude.{
  ℕ, zero, suc, ◌+◌, ◌≤◌, ◌<◌, ◌≡◌, refl, ap, ap₂, true, false, Option, none, some, [], ◌∷◌, ◌++◌,
  arith, length, take, drop, Bytes,
}
use complex_git_sync.Merkle.Json.{
  Json, null, boolean, num, str, arr, obj, Items, nil, cons, Members, end, field,
}
use complex_git_sync.Memory.Store.{Toml, Loaded, invalid, parsed}
use complex_git_sync.Memory.Ledger.Head.{SameMembers}

mutual
  size : Json → ℕ
  size (arr xs) = suc (size_items xs)
  size (obj ms) = suc (size_members ms)
  size v = 1

  size_items : Items → ℕ
  size_items nil = 1
  size_items (cons x xs) = suc (size x + size_items xs)

  size_members : Members → ℕ
  size_members end = 1
  size_members (field k v ms) = suc (size v + size_members ms)

mutual
  encode : Json → Bytes → Bytes
  encode null r = 0 ∷ r
  encode (boolean false) r = 1 ∷ r
  encode (boolean true) r = 2 ∷ r
  encode (num n) r = 3 ∷ n ∷ r
  encode (str s) r = 4 ∷ length s ∷ s ++ r
  encode (arr xs) r = 5 ∷ encode_items xs r
  encode (obj ms) r = 6 ∷ encode_members ms r

  encode_items : Items → Bytes → Bytes
  encode_items nil r = 0 ∷ r
  encode_items (cons x xs) r = 1 ∷ encode x (encode_items xs r)

  encode_members : Members → Bytes → Bytes
  encode_members end r = 0 ∷ r
  encode_members (field k v ms) r = 1 ∷ length k ∷ k ++ encode v (encode_members ms r)

infixl 5 ◌>>&◌
abbrev ◌>>&◌ :
    {A B : Type 0} → Option (A × Bytes) → (A → Bytes → Option (B × Bytes)) → Option (B × Bytes)
none >>& f = none
some (a, r) >>& f = f a r

mutual
  decode : ℕ → Bytes → Option (Json × Bytes)
  decode (suc f) (zero ∷ r) = some (null, r)
  decode (suc f) (suc zero ∷ r) = some (boolean false, r)
  decode (suc f) (suc (suc zero) ∷ r) = some (boolean true, r)
  decode (suc f) (suc (suc (suc zero)) ∷ n ∷ r) = some (num n, r)
  decode (suc f) (suc (suc (suc (suc zero))) ∷ n ∷ r) = some (str (take n r), drop n r)
  decode (suc f) (suc (suc (suc (suc (suc zero)))) ∷ r) =
      decode_items f r >>& λ xs r'. some (arr xs, r')
  decode (suc f) (suc (suc (suc (suc (suc (suc zero))))) ∷ r) =
      decode_members f r >>& λ ms r'. some (obj ms, r')
  decode f r = none

  decode_items : ℕ → Bytes → Option (Items × Bytes)
  decode_items (suc f) (zero ∷ r) = some (nil, r)
  decode_items (suc f) (suc zero ∷ r) =
      decode f r >>& λ x r'. decode_items f r' >>& λ xs r''. some (cons x xs, r'')
  decode_items f r = none

  decode_members : ℕ → Bytes → Option (Members × Bytes)
  decode_members (suc f) (zero ∷ r) = some (end, r)
  decode_members (suc f) (suc zero ∷ n ∷ r) = decode f (drop n r) >>& λ v r'.
      decode_members f r' >>& λ ms r''. some (field (take n r) v ms, r'')
  decode_members f r = none

take-length : (s r : Bytes) → take (length s) (s ++ r) ≡ s
take-length [] r = refl
take-length (c ∷ s) r = ap (λ t. c ∷ t) (take-length s r)

drop-length : (s r : Bytes) → drop (length s) (s ++ r) ≡ r
drop-length [] r = refl
drop-length (c ∷ s) r = drop-length s r

size_pos : (v : Json) → 0 < size v
unfolding size
size_pos null = omega arith
size_pos (boolean b) = omega arith
size_pos (num n) = omega arith
size_pos (str s) = omega arith
size_pos (arr xs) = omega arith
size_pos (obj ms) = omega arith

size_items_pos : (xs : Items) → 0 < size_items xs
unfolding size
size_items_pos nil = omega arith
size_items_pos (cons x xs) = omega arith

size_members_pos : (ms : Members) → 0 < size_members ms
unfolding size
size_members_pos end = omega arith
size_members_pos (field k v ms) = omega arith

mutual
  unfolding size encode decode

  decode-encode : (v : Json) (f : ℕ) (r : Bytes) → size v ≤ f → decode f (encode v r) ≡ some (v, r)
  decode-encode v zero r h = absurd (omega (arith, size_pos v))
  decode-encode null (suc f) r h = refl
  decode-encode (boolean false) (suc f) r h = refl
  decode-encode (boolean true) (suc f) r h = refl
  decode-encode (num n) (suc f) r h = refl
  decode-encode (str s) (suc f) r h =
      ap₂ (λ a b. some (str a, b)) (take-length s r) (drop-length s r)
  decode-encode (arr xs) (suc f) r h = rw (decode_items-encode_items xs f r (omega arith)) refl
  decode-encode (obj ms) (suc f) r h = rw (decode_members-encode_members ms f r (omega arith)) refl

  decode_items-encode_items :
      (xs : Items) (f : ℕ) (r : Bytes)
      → size_items xs ≤ f
      → decode_items f (encode_items xs r) ≡ some (xs, r)
  decode_items-encode_items xs zero r h = absurd (omega (arith, size_items_pos xs))
  decode_items-encode_items nil (suc f) r h = refl
  decode_items-encode_items (cons x xs) (suc f) r h =
      rw
        (
          decode-encode x f (encode_items xs r) (omega arith),
          decode_items-encode_items xs f r (omega arith),
        )
        refl

  decode_members-encode_members :
      (ms : Members) (f : ℕ) (r : Bytes)
      → size_members ms ≤ f
      → decode_members f (encode_members ms r) ≡ some (ms, r)
  decode_members-encode_members ms zero r h = absurd (omega (arith, size_members_pos ms))
  decode_members-encode_members end (suc f) r h = refl
  decode_members-encode_members (field k v ms) (suc f) r h =
      rw
        (
          take-length k (encode v (encode_members ms r)),
          drop-length k (encode v (encode_members ms r)),
          decode-encode v f (encode_members ms r) (omega arith),
          decode_members-encode_members ms f r (omega arith),
        )
        refl

-- The table that was read, without what follows it.
table_of : Option (Members × Bytes) → Option Members
table_of none = none
table_of (some (ms, r)) = some ms

unfoldable pub read_table : Bytes → Option Members
unfolding decode table_of
read_table [] = none
read_table (f ∷ r) = table_of (decode_members f r)

unfoldable pub write_table : Members → Bytes
unfolding size encode
write_table table = size_members table ∷ encode_members table []

pub read_table-write_table : (table : Members) → read_table (write_table table) ≡ some table
unfolding read_table write_table table_of
read_table-write_table table =
    ap table_of (decode_members-encode_members table (size_members table) [] (omega arith))

abbrev pub loaded_table : Option Members → Loaded
loaded_table none = invalid
loaded_table (some table) = parsed table

abbrev pub plain_toml : Toml SameMembers
plain_toml = record {
  dumps = write_table;
  loads = λ content. loaded_table (read_table content);
  loads_dumps = λ table storable. (table, ap loaded_table (read_table-write_table table), refl);
}
