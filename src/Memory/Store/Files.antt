-- ===== src/Memory/Store/Files.antt =====
-- Looking up a file by its name after a write and after a removal.
use complex_git_sync.Prelude.{
  ◌≡◌, refl, sym, ap, ◌∙◌, inl, inr, false, none, some, List, [], ◌∷◌, arith, Bool-cases,
  none_ne_some, Text, Bytes, text_eq, text_eq_refl, text_eq→eq, text_eq_iff,
}
use complex_git_sync.Memory.Store.{file_at, remove_file, write_file}

pub file_at-write_file :
    (files : List (Text × Bytes)) (name : Text) (content : Bytes)
    → file_at (write_file files name content) name ≡ some content
unfolding file_at write_file
file_at-write_file [] name content = ground (arith, text_eq_refl name)
file_at-write_file ((n, c) ∷ files) name content =
    ground (arith, text_eq_refl name, file_at-write_file files name content)

pub file_at-write_file_other :
    (files : List (Text × Bytes)) (name other : Text) (content : Bytes)
    → text_eq name other ≡ false
    → file_at (write_file files name content) other ≡ file_at files other
unfolding file_at write_file
file_at-write_file_other [] name other content differ = rw differ refl
file_at-write_file_other ((n, c) ∷ files) name other content differ = ground (
  arith,
  file_at-write_file_other files name other content differ,
  text_eq_iff n name,
  text_eq_iff n other,
  text_eq_iff name other,
)

pub file_at-remove_file_other :
    (files : List (Text × Bytes)) (name other : Text)
    → text_eq name other ≡ false
    → file_at (remove_file files name) other ≡ file_at files other
unfolding file_at remove_file
file_at-remove_file_other [] name other differ = refl
file_at-remove_file_other ((n, c) ∷ files) name other differ = ground (
  arith,
  file_at-remove_file_other files name other differ,
  text_eq_iff n name,
  text_eq_iff n other,
  text_eq_iff name other,
)

-- A name that a file has is not a name that no file has.
pub file_at-differ :
    (files : List (Text × Bytes)) (name other : Text) (content : Bytes)
    → file_at files name ≡ none
    → file_at files other ≡ some content
    → text_eq name other ≡ false
file_at-differ files name other content missing found = elim (Bool-cases (text_eq name other)) [
  | inl same ↦
      absurd (none_ne_some (sym missing ∙ ap (file_at files) (text_eq→eq name other same) ∙ found))
  | inr differ ↦ differ
]

-- A temporary file that is written and removed leaves the other files.
pub file_at-temporary :
    (files : List (Text × Bytes)) (tmp other : Text) (content : Bytes)
    → text_eq tmp other ≡ false
    → file_at (remove_file (write_file files tmp content) tmp) other ≡ file_at files other
file_at-temporary files tmp other content differ =
    file_at-remove_file_other (write_file files tmp content) tmp other differ
    ∙ file_at-write_file_other files tmp other content differ

-- A file that is written under a temporary name and then given its own name, for the others.
pub file_at-renamed_other :
    (files : List (Text × Bytes)) (tmp name other : Text) (content : Bytes)
    → text_eq tmp other ≡ false
    → text_eq name other ≡ false
    → file_at (remove_file (write_file (write_file files tmp content) name content) tmp) other
      ≡ file_at files other
file_at-renamed_other files tmp name other content h k =
    file_at-remove_file_other (write_file (write_file files tmp content) name content) tmp other h
    ∙ file_at-write_file_other (write_file files tmp content) name other content k
    ∙ file_at-write_file_other files tmp other content h

-- The same for its own name.
pub file_at-renamed :
    (files : List (Text × Bytes)) (tmp name : Text) (content : Bytes)
    → text_eq tmp name ≡ false
    → file_at (remove_file (write_file (write_file files tmp content) name content) tmp) name
      ≡ some content
file_at-renamed files tmp name content h =
    file_at-remove_file_other (write_file (write_file files tmp content) name content) tmp name h
    ∙ file_at-write_file (write_file files tmp content) name content

pub file_at-removed :
    (files : List (Text × Bytes)) (name : Text) → file_at (remove_file files name) name ≡ none
unfolding file_at remove_file
file_at-removed [] name = refl
file_at-removed ((n, c) ∷ files) name =
    ground (arith, file_at-removed files name, text_eq_refl name)
