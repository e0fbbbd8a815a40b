-- ===== src/Omniscience/Checkpoints/Dictionary.antt =====
-- The dictionaries of records of omniscience/global_index.py and omniscience/omniscience_checkpoints.py.
use complex_git_sync.Prelude.{
  ◌≡◌, refl, sym, ap, ◌∙◌, inl, inr, Bool, true, false, ◌||◌, Option, none, some, List, [], ◌∷◌,
  map, arith, if◌then◌else◌, Bool-cases, Option-cases, some_inj, false_ne_true, none_ne_some,
  if_cases, All, any, is_empty, Text, Bytes, text_eq, text_lt, text_eq→eq, insert_sorted, sorted,
}
use complex_git_sync.Omniscience.Record.{OmniscienceRecord, own_hash}
use complex_git_sync.Omniscience.Checkpoints.{
  Records, put_record, get_record, values, member, RegisterFile, collect, global_index,
  checkpoint_body, leaf_lt, cover, is_key, valid_of,
}

pub or_false : (b : Bool) → (b || false) ≡ b
or_false true = refl
or_false false = refl

if_key :
    (b : Bool) (s : OmniscienceRecord) (o : Option OmniscienceRecord)
    → (elim (if b then some s else o) [ none ↦ false | some r ↦ true ])
      ≡ (b || elim o [ none ↦ false | some r ↦ true ])
if_key true s o = refl
if_key false s o = refl

pub is_key-cons :
    (k h : Text) (s : OmniscienceRecord) (records : Records)
    → is_key ((k, s) ∷ records) h ≡ (text_eq k h || is_key records h)
unfolding get_record
is_key-cons k h s records = if_key (text_eq k h) s (get_record records h)

pub is_key-put_record :
    (records : Records) (name h : Text) (r : OmniscienceRecord)
    → is_key (put_record name r records) h ≡ (text_eq name h || is_key records h)
unfolding put_record
is_key-put_record [] name h r = is_key-cons name h r []
is_key-put_record ((k, s) ∷ records) name h r =
    let ih = is_key-put_record records name h r in
    elim (Bool-cases (text_eq k name)) [
      | inl same ↦
          let swap : text_eq k h ≡ text_eq name h =
            ap (λ i. text_eq i h) (text_eq→eq k name same) in
          let was = is_key-cons k h s records in
          let now = is_key-cons k h r records in rw (same) (ground arith)
      | inr differ ↦
          let was = is_key-cons k h s records in
          let now = is_key-cons k h s (put_record name r records) in rw (differ) (ground arith)
    ]

member-insert_sorted :
    (lt : Text → Text → Bool) (h x : Text) (names : List Text)
    → member h (insert_sorted lt x names) ≡ (text_eq x h || member h names)
unfolding insert_sorted
member-insert_sorted lt h x [] = refl
member-insert_sorted lt h x (y ∷ ys) = let ih = member-insert_sorted lt h x ys in ground arith

member-sorted :
    (lt : Text → Text → Bool) (h : Text) (names : List Text)
    → member h (sorted lt names) ≡ member h names
unfolding sorted
member-sorted lt h [] = refl
member-sorted lt h (x ∷ xs) =
    let ih = member-sorted lt h xs in
    member-insert_sorted lt h x (sorted lt xs) ∙ ap (λ b. text_eq x h || b) ih

pub any-cons : (a b : Bool) → b ≡ true → (a || b) ≡ true
any-cons true b e = refl
any-cons false b e = e

pub or_true : {a : Bool} (b : Bool) → a ≡ true → (a || b) ≡ true
or_true b e = ap (λ c. c || b) e

pub put_kept :
    (records : Records) (name : Text) (r : OmniscienceRecord) (h : Text)
    → is_key records h ≡ true
    → is_key (put_record name r records) h ≡ true
put_kept records name r h is =
    is_key-put_record records name h r ∙ any-cons (text_eq name h) (is_key records h) is

module _ (sha256 : Bytes → Bytes) where
  -- Each record stands under its own hash.
  unfoldable pub HashKeyed : Records → Type 0
  HashKeyed records = All (λ e. e.0 ≡ own_hash sha256 e.1) records

  unfoldable pub has_hash : Text → List OmniscienceRecord → Bool
  has_hash h records = any (λ r. text_eq (own_hash sha256 r) h) records

  has_hash-insert_sorted :
      (lt : OmniscienceRecord → OmniscienceRecord → Bool) (h : Text) (x : OmniscienceRecord)
      (records : List OmniscienceRecord)
      → has_hash h (insert_sorted lt x records)
        ≡ (text_eq (own_hash sha256 x) h || has_hash h records)
  unfolding insert_sorted has_hash
  has_hash-insert_sorted lt h x [] = refl
  has_hash-insert_sorted lt h x (y ∷ ys) = let ih = has_hash-insert_sorted lt h x ys in ground arith

  has_hash-sorted :
      (lt : OmniscienceRecord → OmniscienceRecord → Bool) (h : Text)
      (records : List OmniscienceRecord)
      → has_hash h (sorted lt records) ≡ has_hash h records
  unfolding sorted has_hash
  has_hash-sorted lt h [] = refl
  has_hash-sorted lt h (x ∷ xs) =
      let ih = has_hash-sorted lt h xs in
      has_hash-insert_sorted lt h x (sorted lt xs) ∙ ap (λ b. text_eq (own_hash sha256 x) h || b) ih

  has_hash-member :
      (h : Text) (records : List OmniscienceRecord)
      → member h (map (own_hash sha256) records) ≡ has_hash h records
  unfolding has_hash
  has_hash-member h [] = refl
  has_hash-member h (r ∷ records) =
      ap (λ b. text_eq (own_hash sha256 r) h || b) (has_hash-member h records)

  has_hash-values :
      (h : Text) (records : Records)
      → HashKeyed records
      → has_hash h (values records) ≡ is_key records h
  unfolding has_hash HashKeyed
  has_hash-values h [] keyed = unfold get_record in refl
  has_hash-values h ((k, r) ∷ records) (e, keyed) =
      let ih = has_hash-values h records keyed in
      let same : text_eq k h ≡ text_eq (own_hash sha256 r) h = ap (λ i. text_eq i h) e in
      let cons = is_key-cons k h r records in ground arith

  pub HashKeyed-put_record :
      (records : Records) (name : Text) (r : OmniscienceRecord)
      → name ≡ own_hash sha256 r
      → HashKeyed records
      → HashKeyed (put_record name r records)
  unfolding HashKeyed put_record
  HashKeyed-put_record [] name r e keyed = (e, tt)
  HashKeyed-put_record ((k, s) ∷ records) name r e (f, keyed) = elim (Bool-cases (text_eq k name)) [
    | inl same ↦ rw (same) (text_eq→eq k name same ∙ e, keyed)
    | inr differ ↦ rw (differ) (f, HashKeyed-put_record records name r e keyed)
  ]

  pub collect-HashKeyed :
      (found : Records) (records : List OmniscienceRecord)
      → HashKeyed found
      → HashKeyed (collect sha256 found records)
  unfolding collect
  collect-HashKeyed found [] keyed = keyed
  collect-HashKeyed found (r ∷ records) keyed =
      collect-HashKeyed (put_record (own_hash sha256 r) r found) records
        (HashKeyed-put_record found (own_hash sha256 r) r refl keyed)

  pub is_key-collect :
      (found : Records) (records : List OmniscienceRecord) (h : Text)
      → is_key (collect sha256 found records) h ≡ (has_hash h records || is_key found h)
  unfolding collect has_hash
  is_key-collect found [] h = refl
  is_key-collect found (r ∷ records) h =
      let ih = is_key-collect (put_record (own_hash sha256 r) r found) records h in
      let put = is_key-put_record found (own_hash sha256 r) h r in ground arith

  -- An index has the records it is made of, whatever their order and number.
  pub global_index-has_hash :
      (records : List OmniscienceRecord) (h : Text)
      → has_hash h (global_index sha256 records) ≡ has_hash h records
  unfolding global_index HashKeyed get_record
  global_index-has_hash records h =
      has_hash-sorted (leaf_lt sha256) h (values (collect sha256 [] records))
      ∙ has_hash-values h (collect sha256 [] records) (collect-HashKeyed [] records tt)
      ∙ is_key-collect [] records h
      ∙ or_false _

  pub checkpoint_body-is_key :
      (accepted : Records) (parent h : Text)
      → HashKeyed accepted
      → member h (checkpoint_body sha256 (global_index sha256 (values accepted)) parent).records
        ≡ is_key accepted h
  unfolding checkpoint_body
  checkpoint_body-is_key accepted parent h keyed =
      member-sorted text_lt h (map (own_hash sha256) (global_index sha256 (values accepted)))
      ∙ has_hash-member h (global_index sha256 (values accepted))
      ∙ global_index-has_hash (values accepted) h
      ∙ has_hash-values h accepted keyed

  pub HashKeyed-get_record :
      (records : Records) (name : Text) (r : OmniscienceRecord)
      → HashKeyed records
      → get_record records name ≡ some r
      → name ≡ own_hash sha256 r
  unfolding HashKeyed get_record
  HashKeyed-get_record [] name r keyed e = absurd (none_ne_some e)
  HashKeyed-get_record ((k, s) ∷ records) name r (h, keyed) e = elim (if_cases (text_eq k name) e) [
    | inl (same, is) ↦ sym (text_eq→eq k name same) ∙ h ∙ ap (own_hash sha256) (some_inj is)
    | inr (differ, rest) ↦ HashKeyed-get_record records name r keyed rest
  ]

  pub valid_of-HashKeyed :
      (found : Records) (files : List RegisterFile)
      → HashKeyed found
      → HashKeyed (valid_of sha256 found files)
  unfolding valid_of
  valid_of-HashKeyed found [] keyed = keyed
  valid_of-HashKeyed found (f ∷ files) keyed = elim (Option-cases f.value) [
    | inl no_value ↦ rw (valid_of, no_value) (valid_of-HashKeyed found files keyed)
    | inr (r, there) ↦
        rw (valid_of, there)
          (valid_of-HashKeyed (put_record (own_hash sha256 r) r found) files
            (HashKeyed-put_record found (own_hash sha256 r) r refl keyed))
  ]

  cover_or :
      (accepted : Records) (name : Text) (r : OmniscienceRecord) (h : Text) (b : Bool)
      → (b || is_key (put_record name r accepted) h) ≡ (text_eq name h || b || is_key accepted h)
  cover_or accepted name r h b = let put = is_key-put_record accepted name h r in ground arith

  -- What `cover` gives when nothing is lost: the names as keys, besides those that were there.
  unfoldable pub Covers : Records → List Text → Records × List Text → Type 0
  Covers accepted names (done, lost) =
      HashKeyed done
      × (is_empty lost ≡ true → (h : Text) → is_key done h ≡ (member h names || is_key accepted h))

  pub cover-Covers :
      (valid accepted : Records) (names : List Text)
      → HashKeyed valid
      → HashKeyed accepted
      → Covers accepted names (cover valid accepted names)
  unfolding cover Covers
  cover-Covers valid accepted [] ok_valid keyed = (keyed, λ none_lost h. refl)
  cover-Covers valid accepted (name ∷ names) ok_valid keyed =
      elim (Option-cases (get_record valid name)) [
        | inl missing ↦
            rw (cover, missing)
              (
                (cover-Covers valid accepted names ok_valid keyed).0,
                λ e h. absurd (false_ne_true e),
              )
        | inr (r, there) ↦
            let next =
              HashKeyed-put_record accepted name r
                (HashKeyed-get_record valid name r ok_valid there) keyed in
            let (done, rest) =
              cover-Covers valid (put_record name r accepted) names ok_valid next in
            rw (cover, there) (done, λ e h. rest e h ∙ cover_or accepted name r h (member h names))
      ]
