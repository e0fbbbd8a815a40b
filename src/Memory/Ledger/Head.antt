-- ===== src/Memory/Ledger/Head.antt =====
-- The HEAD cache after `verify_and_repair_head` (tree/memory/ledger_store.py). The TOML codec gives
-- back a table whose keys may stand in another order.
use complex_git_sync.Prelude.{
  ℕ, ◌≡◌, refl, sym, ap, ◌∙◌, inl, inr, true, false, Option, none, some, arith, Bool-cases,
  false_ne_true, none_ne_some, Text, codes, text_eq, text_eq→eq, ok,
}
use complex_git_sync.Merkle.Json.{
  Json, null, boolean, num, str, arr, obj, Members, end, field, get, normalise, normalise_members,
}
use complex_git_sync.Merkle.Json.Lookup.{normal, get-normalise}
use complex_git_sync.Memory.Entry.{text_at}
use complex_git_sync.Memory.Store.{
  Toml, HeadPointer, Directory, file_at, remove_file, head_name, num_of, raw_of, storable_members,
}
use complex_git_sync.Memory.Store.Files.{file_at-renamed, file_at-removed}
use complex_git_sync.Memory.Ledger.{
  ensure_dir, write_head, head_payload, head_from_payload, read_head, same_head, recompute_head,
  repair_head, verify_and_repair_head,
}
use complex_git_sync.Memory.Ledger.Write.{head_tmp}

-- Two tables that say the same, in any order of the keys.
abbrev pub SameMembers : Members → Members → Type 0
SameMembers t u = normalise_members t ≡ normalise_members u

normal_num : (o : Option Json) (n : ℕ) → normal o ≡ some (num n) → o ≡ some (num n)
unfolding normalise
normal_num none n e = absurd (none_ne_some e)
normal_num (some null) n e = cc
normal_num (some (boolean b)) n e = cc
normal_num (some (num m)) n e = e
normal_num (some (str s)) n e = cc
normal_num (some (arr xs)) n e = cc
normal_num (some (obj ms)) n e = cc

normal_str : (o : Option Json) (t : Text) → normal o ≡ some (str t) → o ≡ some (str t)
unfolding normalise
normal_str none t e = absurd (none_ne_some e)
normal_str (some null) t e = cc
normal_str (some (boolean b)) t e = cc
normal_str (some (num m)) t e = cc
normal_str (some (str s)) t e = e
normal_str (some (arr xs)) t e = cc
normal_str (some (obj ms)) t e = cc

normal_obj :
    (o : Option Json) (ms : Members)
    → normal o ≡ some (obj ms)
    → (ns : Members) × (o ≡ some (obj ns)) × (normalise_members ns ≡ ms)
unfolding normalise
normal_obj none ms e = absurd (none_ne_some e)
normal_obj (some null) ms e = cc
normal_obj (some (boolean b)) ms e = cc
normal_obj (some (num m)) ms e = cc
normal_obj (some (str s)) ms e = cc
normal_obj (some (arr xs)) ms e = cc
normal_obj (some (obj ns)) ms e = (ns, refl, cc)

same_get : (t u : Members) (key : Text) → SameMembers t u → normal (get t key) ≡ normal (get u key)
same_get t u key e = sym (get-normalise t key) ∙ ap (λ ms. get ms key) e ∙ get-normalise u key

-- The members of the table `head`.
head_members : HeadPointer → Members
head_members p = field (codes "seq") (num p.seq) (field (codes "entry_hash") (str p.entry_hash) end)

head_from_payload-same :
    (t : Members) (p : HeadPointer) → SameMembers t (head_payload p) → head_from_payload t ≡ some p
unfolding head_payload get text_eq normalise head_members head_from_payload
head_from_payload-same t p e =
    let (ns, found, same) =
      normal_obj (get t (codes "head")) _ (same_get t (head_payload p) (codes "head") e) in
    let seq =
      normal_num (get ns (codes "seq")) p.seq (same_get ns (head_members p) (codes "seq") same) in
    let entry_hash =
      normal_str (get ns (codes "entry_hash")) p.entry_hash
        (same_get ns (head_members p) (codes "entry_hash") same) in
    rw (head_from_payload, raw_of, num_of, text_at, found, seq, entry_hash) refl

same_head→eq : (o : Option HeadPointer) (p : HeadPointer) → same_head o (some p) ≡ true → o ≡ some p
unfolding same_head
same_head→eq none p h = absurd (false_ne_true h)
same_head→eq (some q) p h = ap some (ground (arith, text_eq→eq q.entry_hash p.entry_hash))

tmp_not_head : (token : Text) → text_eq (head_tmp token) head_name ≡ false
unfolding text_eq
tmp_not_head token = refl

-- The table of HEAD is one that TOML can hold.
head_payload-storable : (p : HeadPointer) → storable_members (head_payload p) ≡ true
unfolding storable_members head_payload get text_eq
head_payload-storable p = refl

module _ (toml : Toml SameMembers) where
  read_head-found :
      (p : HeadPointer) (d : Directory)
      → file_at d.files head_name ≡ some (toml.dumps (head_payload p))
      → read_head toml d ≡ ok (some p)
  unfolding read_head
  read_head-found p d found =
      let (t, loaded, same) = toml.loads_dumps (head_payload p) (head_payload-storable p) in
      rw (read_head, found, loaded) (ap ok (head_from_payload-same t p same))

  pub read_head-write_head :
      (token : Text) (p : HeadPointer) (d : Directory)
      → read_head toml (write_head toml token p d) ≡ ok (some p)
  unfolding write_head ensure_dir
  read_head-write_head token p d = read_head-found p (write_head toml token p d) (
      file_at-renamed d.files (head_tmp token) head_name (toml.dumps (head_payload p))
        (tmp_not_head token))

  read_head-removed :
      (d : Directory)
      → read_head toml (record d { files = remove_file d.files head_name }) ≡ ok none
  unfolding read_head
  read_head-removed d = rw (read_head, file_at-removed d.files head_name) refl

  read_head-repair_head :
      (token : Text) (true_head cached : Option HeadPointer) (d : Directory)
      → read_head toml d ≡ ok cached
      → read_head toml (repair_head toml token true_head cached d) ≡ ok true_head
  unfolding repair_head
  read_head-repair_head token none none d is = is
  read_head-repair_head token none (some p) d is = read_head-removed d
  read_head-repair_head token (some p) cached d is = elim (Bool-cases (same_head cached (some p))) [
    | inl same ↦ rw (repair_head, same) (is ∙ ap ok (same_head→eq cached p same))
    | inr differ ↦ rw (repair_head, differ) (read_head-write_head token p d)
  ]

  -- Where the entries are read without an error and HEAD, if there is one, decodes as UTF-8,
  -- `verify_and_repair_head` answers with the HEAD that the entries say, and the cache then reads as
  -- that, whatever it held before; where there is no entry, no HEAD is read.
  pub verify_and_repair_head-read_head :
      (token : Text) (d : Directory) (true_head cached : Option HeadPointer)
      → recompute_head toml d ≡ ok true_head
      → read_head toml d ≡ ok cached
      → ((verify_and_repair_head toml token d).0 ≡ ok true_head)
        × (read_head toml (verify_and_repair_head toml token d).1 ≡ ok true_head)
  unfolding verify_and_repair_head
  verify_and_repair_head-read_head token d true_head cached h is =
      rw (verify_and_repair_head, h, is) (refl, read_head-repair_head token true_head cached d is)
