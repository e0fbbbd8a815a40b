-- ===== src/Tree/Propagate/Lookup.antt =====
-- Lookups among the entries and among the answers of `propagate_privacy` (tree/git_tree.py).
use complex_git_sync.Prelude.{
  ◌≡◌, sym, ap, subst, ◌∙◌, ◌⊎◌, inl, inr, false, Option, none, some, List, [], ◌∷◌, map, some_inj,
  none_ne_some, if_cases, All, is_empty, Text, text_eq, text_eq→eq,
}
use complex_git_sync.Repo.{WorkingRepo}
use complex_git_sync.Tree.{find_repo}
use complex_git_sync.Tree.Propagate.{
  Flags, Answers, answer_of, parent_under, declared_flags, inherit, with_flags,
}

cong_id : (s r : WorkingRepo) → s ≡ r → r.repo_id ≡ s.repo_id
cong_id s r e = sym (ap (λ (t : WorkingRepo). t.repo_id) e)

pub found_id :
    (repos : List WorkingRepo) (id : Text) (r : WorkingRepo)
    → find_repo repos id ≡ some r
    → r.repo_id ≡ id
unfolding find_repo
found_id [] id r e = absurd (none_ne_some e)
found_id (s ∷ repos) id r e = elim (if_cases (text_eq s.repo_id id) e) [
  | inl (same, is) ↦ cong_id s r (some_inj is) ∙ text_eq→eq s.repo_id id same
  | inr (other, rest) ↦ found_id repos id r rest
]

pub under_found :
    (repos : List WorkingRepo) (id : Text) (o : Option Text) (p : WorkingRepo)
    → parent_under repos id o ≡ some p
    → find_repo repos p.repo_id ≡ some p
unfolding parent_under
under_found repos id none p e = absurd (none_ne_some e)
under_found repos id (some q) p e = elim (if_cases (is_empty q) e) [
  | inl (empty, none_is) ↦ absurd (none_ne_some none_is)
  | inr (named, e2) ↦ elim (if_cases (text_eq q id) e2) [
    | inl (itself, none_is) ↦ absurd (none_ne_some none_is)
    | inr (other, found) ↦
        subst (λ i. find_repo repos i ≡ some p) (sym (found_id repos q p found)) found
  ]
]

pub answer_of-cons :
    (answers : Answers) (k id : Text) (f g : Flags)
    → answer_of ((k, f) ∷ answers) id ≡ some g
    → ((k ≡ id) × (f ≡ g)) ⊎ (answer_of answers id ≡ some g)
unfolding answer_of
answer_of-cons answers k id f g e = elim (if_cases (text_eq k id) e) [
  | inl (same, is) ↦ inl (text_eq→eq k id same, some_inj is)
  | inr (other, is) ↦ inr is
]

-- The answer of an entry, once all are answered.
unfoldable pub flags_in : Answers → Text → Flags
flags_in answers id = elim (answer_of answers id) [ none ↦ (false, false) | some f ↦ f ]

pub flags_in-some :
    (answers : Answers) (id : Text) (f : Flags)
    → answer_of answers id ≡ some f
    → flags_in answers id ≡ f
unfolding flags_in
flags_in-some answers id f e =
    ap (λ (o : Option Flags). elim o [ none ↦ (false, false) | some g ↦ g ]) e

-- The rule for one entry, by the flags that its parent has.
abbrev pub Follows : (Text → Flags) → WorkingRepo → Option WorkingRepo → Type 0
Follows flags r none = flags r.repo_id ≡ declared_flags r
Follows flags r (some p) = flags r.repo_id ≡ inherit r (flags p.repo_id)

pub find_repo-with_flags :
    (flags : Text → Flags) (repos : List WorkingRepo) (id : Text) (r : WorkingRepo)
    → find_repo repos id ≡ some r
    → find_repo (map (λ s. with_flags s (flags s.repo_id)) repos) id
      ≡ some (with_flags r (flags r.repo_id))
unfolding find_repo
find_repo-with_flags flags [] id r e = absurd (none_ne_some e)
find_repo-with_flags flags (s ∷ repos) id r e = elim (if_cases (text_eq s.repo_id id) e) [
  | inl (same, is) ↦
      rw (same) (ap (λ (t : WorkingRepo). some (with_flags t (flags t.repo_id))) (some_inj is))
  | inr (other, rest) ↦ rw (other) (find_repo-with_flags flags repos id r rest)
]

pub All-find_repo :
    (P : WorkingRepo → Type 0) (repos : List WorkingRepo) (id : Text) (r : WorkingRepo)
    → All P repos
    → find_repo repos id ≡ some r
    → P r
unfolding find_repo
All-find_repo P [] id r all e = absurd (none_ne_some e)
All-find_repo P (s ∷ repos) id r (h, all) e = elim (if_cases (text_eq s.repo_id id) e) [
  | inl (same, is) ↦ subst P (some_inj is) h
  | inr (other, rest) ↦ All-find_repo P repos id r all rest
]
