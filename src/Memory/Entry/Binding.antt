-- ===== src/Memory/Entry/Binding.antt =====
-- The hash of an entry covers each of its fields.

use complex_git_sync.Prelude.{
  ◌≡◌, refl, sym, ap, ap₂, ◌∙◌, Option, some, List, [], ◌∷◌, Text, codes, text_eq,
}
use complex_git_sync.Merkle.Json.{
  Json, str, obj, Items, cons, Members, end, get, put, normalise, normalise_items,
  normalise_members,
}
use complex_git_sync.Merkle.Json.Lookup.{
  normal, get-normalise, AllStrings, put-AllStrings, normal_string,
}
use complex_git_sync.Memory.Entry.{
  strings, Pairs, Relocation, as_dict, Fields, dict_from, dict_of, relocation_items,
}

pub normalise_items-strings : (ss : List Text) → normalise_items (strings ss) ≡ strings ss
unfolding normalise_items strings
normalise_items-strings [] = refl
normalise_items-strings (s ∷ ss) = ap (cons (str s)) (normalise_items-strings ss)

pub strings-inj : (ss ts : List Text) → strings ss ≡ strings ts → ss ≡ ts
strings-inj [] [] e = refl
strings-inj [] (t ∷ ts) e = unfold strings in cc
strings-inj (s ∷ ss) [] e = unfold strings in cc
strings-inj (s ∷ ss) (t ∷ ts) e =
    let p : (s ≡ t) × (strings ss ≡ strings ts) = cons_str (unfold strings in e) in
    ap₂ (λ x xs. x ∷ xs) p.0 (strings-inj ss ts p.1)
  where
    cons_str :
        {s t : Text} {xs ys : Items} → cons (str s) xs ≡ cons (str t) ys → (s ≡ t) × (xs ≡ ys)
    cons_str e = (cc, cc)

text_of : Option Json → Text
text_of (some (str s)) = s
text_of _ = []

relocation_at :
    (r q : Relocation)
    → normalise_members (as_dict r) ≡ normalise_members (as_dict q)
    → (key : Text) → text_of (normal (get (as_dict r) key)) ≡ text_of (normal (get (as_dict q) key))
relocation_at r q e key = ap text_of (
    sym (get-normalise (as_dict r) key)
    ∙ ap (λ (ms : Members). get ms key) e
    ∙ get-normalise (as_dict q) key)

relocation-inj :
    (r q : Relocation) → normalise_members (as_dict r) ≡ normalise_members (as_dict q) → r ≡ q
relocation-inj r q e =
    unfold as_dict get text_eq text_of normalise in
    λ i. record {
      asset = relocation_at r q e (codes "asset") i;
      origin = relocation_at r q e (codes "from") i;
      to = relocation_at r q e (codes "to") i;
      ancestor = relocation_at r q e (codes "ancestor") i;
    }

cons_obj :
    {ms ns : Members} {xs ys : Items} → cons (obj ms) xs ≡ cons (obj ns) ys → (ms ≡ ns) × (xs ≡ ys)
cons_obj e = (cc, cc)

head_and_rest :
    (r q : Relocation) (rs qs : List Relocation)
    → normalise_items (relocation_items (r ∷ rs)) ≡ normalise_items (relocation_items (q ∷ qs))
    → (normalise_members (as_dict r) ≡ normalise_members (as_dict q))
      × (normalise_items (relocation_items rs) ≡ normalise_items (relocation_items qs))
unfolding relocation_items normalise
head_and_rest r q rs qs e = cons_obj e

pub relocation_items-inj :
    (rs qs : List Relocation)
    → normalise_items (relocation_items rs) ≡ normalise_items (relocation_items qs)
    → rs ≡ qs
relocation_items-inj [] [] e = refl
relocation_items-inj [] (q ∷ qs) e = unfold relocation_items normalise_items in cc
relocation_items-inj (r ∷ rs) [] e = unfold relocation_items normalise_items in cc
relocation_items-inj (r ∷ rs) (q ∷ qs) e =
    let (first, rest) = head_and_rest r q rs qs e in
    ap₂ (λ x xs. x ∷ xs) (relocation-inj r q first) (relocation_items-inj rs qs rest)

dict_from-AllStrings : (ms : Members) (ps : Pairs) → AllStrings ms → AllStrings (dict_from ms ps)
unfolding dict_from
dict_from-AllStrings ms [] h = h
dict_from-AllStrings ms ((name, value) ∷ ps) h =
    dict_from-AllStrings (put ms name (str value)) ps (put-AllStrings ms name value h)

-- Two lists of pairs that make dictionaries with the same lookups.
abbrev pub SameDict : Pairs → Pairs → Type 0
SameDict ps qs = (name : Text) → get (dict_of ps) name ≡ get (dict_of qs) name

pub dict_of-SameDict :
    (ps qs : Pairs) → normalise (obj (dict_of ps)) ≡ normalise (obj (dict_of qs)) → SameDict ps qs
unfolding normalise dict_of
dict_of-SameDict ps qs e name =
    let same : normalise_members (dict_of ps) ≡ normalise_members (dict_of qs) = obj_members e in
    sym (normal_string (dict_of ps) name (dict_from-AllStrings end ps tt))
    ∙ sym (get-normalise (dict_of ps) name)
    ∙ ap (λ (ms : Members). get ms name) same
    ∙ get-normalise (dict_of qs) name
    ∙ normal_string (dict_of qs) name (dict_from-AllStrings end qs tt)
  where
    obj_members : {ms ns : Members} → obj ms ≡ obj ns → ms ≡ ns
    obj_members e = cc

-- Two records of the ledger that say the same.
pub record SameFields (f g : Fields) : Type 0 where
  pub seq : f.seq ≡ g.seq
  pub prev : f.prev ≡ g.prev
  pub recorded_at : f.recorded_at ≡ g.recorded_at
  pub command : f.command ≡ g.command
  pub argv : f.argv ≡ g.argv
  pub state_id : f.state_id ≡ g.state_id
  pub state_dir : f.state_dir ≡ g.state_dir
  pub outcome : f.outcome ≡ g.outcome
  pub toolchain : SameDict f.toolchain g.toolchain
  pub commit_log : f.commit_log ≡ g.commit_log
  pub environment : f.environment ≡ g.environment
  pub release : SameDict f.release g.release
  pub relocations : f.relocations ≡ g.relocations
