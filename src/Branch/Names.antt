-- ===== src/Branch/Names.antt =====
-- The names of branches that git_repo/git_branch.py composes, and how they are read back.
use complex_git_sync.Prelude.{
  ℕ, ◌≡◌, refl, sym, ap, ap₂, ◌∙◌, ◌≢◌, ◌⊎◌, inl, inr, Bool, true, false, ◌||◌, Option, none, some,
  [], ◌∷◌, ◌++◌, arith, ◌==◌, if◌then◌else◌, Bool-cases, false_ne_true, cons_head, cons_tail, Text,
  text_eq, text_eq→eq,
}
use mathlib.Core.List.{append_assoc, append_cancel_left, append-nil}
use complex_git_sync.Branch.{
  main_branch, separator, twin_branch_owner, branch_base, private_local_branch, has_separator,
}

plain_parts : (c : ℕ) (b : Bool) → (c == separator || b) ≡ false → (c ≢ separator) × (b ≡ false)
plain_parts c b h = ground arith

-- A text without the separator ends where the first separator stands.
split_at_separator :
    (p q r s : Text)
    → has_separator p ≡ false
    → has_separator q ≡ false
    → p ++ separator ∷ r ≡ q ++ separator ∷ s
    → (p ≡ q) × (r ≡ s)
unfolding has_separator
split_at_separator [] [] r s hp hq e = (refl, cons_tail e)
split_at_separator [] (d ∷ q) r s hp hq e =
    absurd ((plain_parts d (has_separator q) hq).0 (sym (cons_head e)))
split_at_separator (c ∷ p) [] r s hp hq e =
    absurd ((plain_parts c (has_separator p) hp).0 (cons_head e))
split_at_separator (c ∷ p) (d ∷ q) r s hp hq e =
    let (same, rest) =
      split_at_separator p q r s (plain_parts c (has_separator p) hp).1
        (plain_parts d (has_separator q) hq).1 (cons_tail e) in
    (ap₂ (λ x xs. x ∷ xs) (cons_head e) same, rest)

has_separator-append : (p r : Text) → has_separator (p ++ separator ∷ r) ≡ true
unfolding has_separator
has_separator-append [] r = refl
has_separator-append (c ∷ p) r = ground (arith, has_separator-append p r)

no_separator-append : (p q r : Text) → has_separator p ≡ false → p ≡ q ++ separator ∷ r → ⊥
no_separator-append p q r h e =
    false_ne_true (sym h ∙ ap has_separator e ∙ has_separator-append q r)

-- What stands before the project's name, and what stands after it.
abbrev pub owner_prefix : Bool → Option Text → Text
owner_prefix true owner = twin_branch_owner ++ separator ∷ []
owner_prefix false none = []
owner_prefix false (some []) = []
owner_prefix false (some (c ∷ cs)) = (c ∷ cs) ++ separator ∷ []

abbrev pub branch_suffix : Text → Text
branch_suffix branch_name = if text_eq branch_name main_branch then [] else separator ∷ branch_name

branch_base-prefix :
    (p : Text) (twin : Bool) (owner : Option Text)
    → branch_base p twin owner ≡ owner_prefix twin owner ++ p
unfolding branch_base
branch_base-prefix p true owner = refl
branch_base-prefix p false none = refl
branch_base-prefix p false (some []) = refl
branch_base-prefix p false (some (c ∷ cs)) = sym (append_assoc (c ∷ cs) (separator ∷ []) p)

pub branch_parts :
    (p b : Text) (twin : Bool) (owner : Option Text)
    → private_local_branch p b twin owner ≡ owner_prefix twin owner ++ (p ++ branch_suffix b)
unfolding private_local_branch
branch_parts p b twin owner = elim (Bool-cases (text_eq b main_branch)) [
  | inl same ↦ rw (private_local_branch, same, append-nil) (branch_base-prefix p twin owner)
  | inr other ↦
      rw (private_local_branch, other)
        (ap (λ base. base ++ separator ∷ b) (branch_base-prefix p twin owner)
          ∙ append_assoc (owner_prefix twin owner) p (separator ∷ b))
]

-- The main branch has no suffix; each other branch is the suffix.
pub suffix_cases :
    (p b : Text)
    → ((b ≡ main_branch) × (p ++ branch_suffix b ≡ p)) ⊎ (p ++ branch_suffix b ≡ p ++ separator ∷ b)
suffix_cases p b = elim (Bool-cases (text_eq b main_branch)) [
  | inl same ↦ inl (text_eq→eq b main_branch same, rw (same, append-nil) refl)
  | inr other ↦ inr (rw other refl)
]

-- The project's name and the suffix are read back, since the name has no separator.
suffix_inj :
    (p q b c : Text)
    → has_separator p ≡ false
    → has_separator q ≡ false
    → p ++ branch_suffix b ≡ q ++ branch_suffix c
    → (p ≡ q) × (b ≡ c)
suffix_inj p q b c hp hq e = go (suffix_cases p b) (suffix_cases q c)
  where
    go :
        ((b ≡ main_branch) × (p ++ branch_suffix b ≡ p))
          ⊎ (p ++ branch_suffix b ≡ p ++ separator ∷ b)
        → ((c ≡ main_branch) × (q ++ branch_suffix c ≡ q))
          ⊎ (q ++ branch_suffix c ≡ q ++ separator ∷ c)
        → (p ≡ q) × (b ≡ c)
    go (inl m) (inl n) = (sym m.1 ∙ e ∙ n.1, m.0 ∙ sym n.0)
    go (inl m) (inr n) = absurd (no_separator-append p q c hp (sym m.1 ∙ e ∙ n))
    go (inr m) (inl n) = absurd (no_separator-append q p b hq (sym n.1 ∙ sym e ∙ m))
    go (inr m) (inr n) = split_at_separator p q b c hp hq (sym m ∙ e ∙ n)

-- For one owner, the branch of a private repository determines the project and its branch, where
-- the names of the projects hold no separator.
pub private_local_branch_inj :
    (p q b c : Text) (twin : Bool) (owner : Option Text)
    → has_separator p ≡ false
    → has_separator q ≡ false
    → private_local_branch p b twin owner ≡ private_local_branch q c twin owner
    → (p ≡ q) × (b ≡ c)
private_local_branch_inj p q b c twin owner hp hq e = suffix_inj p q b c hp hq (
    append_cancel_left (owner_prefix twin owner) _ _
      (sym (branch_parts p b twin owner) ∙ e ∙ branch_parts q c twin owner))

no_separator-twin : has_separator twin_branch_owner ≡ false
unfolding has_separator
no_separator-twin = refl

-- A text that starts as a twin's branch does is a branch of the project that is called after the owner.
pub twin_start :
    (q c t : Text)
    → has_separator q ≡ false
    → twin_branch_owner ++ separator ∷ t ≡ q ++ branch_suffix c
    → (q ≡ twin_branch_owner) × (c ≡ t)
twin_start q c t hq e = elim (suffix_cases q c) [
  | inl m ↦ absurd (no_separator-append q twin_branch_owner t hq (sym m.1 ∙ sym e))
  | inr m ↦
      let (same, rest) = split_at_separator twin_branch_owner q t c no_separator-twin hq (e ∙ m) in
      (sym same, sym rest)
]

-- A twin's branch is a branch of no project of its own but one: where neither the projects' names
-- nor the branch hold a separator, it is the branch that ComplexGitSync itself gives to a branch
-- called after the project, and the twin is then on the main branch.
pub private_local_branch-twin :
    (p q b c : Text)
    → has_separator q ≡ false
    → has_separator c ≡ false
    → private_local_branch p b true none ≡ private_local_branch q c false none
    → (q ≡ twin_branch_owner) × (c ≡ p) × (b ≡ main_branch)
private_local_branch-twin p q b c hq hc e =
    let (owner, rest) = twin_start q c (p ++ branch_suffix b) hq (
      sym (append_assoc twin_branch_owner (separator ∷ []) (p ++ branch_suffix b))
      ∙ sym (branch_parts p b true none)
      ∙ e
      ∙ branch_parts q c false none) in
    elim (suffix_cases p b) [
      | inl m ↦ (owner, rest ∙ m.1, m.0)
      | inr m ↦ absurd (no_separator-append c p b hc (rest ∙ m))
    ]
