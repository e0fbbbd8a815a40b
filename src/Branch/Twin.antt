-- ===== src/Branch/Twin.antt =====
-- How the branch of a twin's memory and the name of a closed branch are recognised
-- (git_repo/git_branch.py).
use complex_git_sync.Prelude.{
  ◌≡◌, refl, sym, ap, ◌∙◌, ◌≢◌, ◌↔◌, ◌⊎◌, inl, inr, Bool, true, false, ◌||◌, Option, none, some, [],
  ◌∷◌, ◌++◌, Bool-cases, Option-cases, some_inj, false_ne_true, none_ne_some, nil_ne_cons, Text,
  text_eq, text_eq_refl, text_eq→eq, after_prefix, starts_with, after_prefix-append,
  after_prefix-some,
}
use mathlib.Core.List.{append_assoc}
use complex_git_sync.Branch.{
  main_branch, separator, twin_branch_owner, branch_base, private_local_branch, is_twin_branch,
  has_separator, closed_branch_prefix, closed_branch_name, closed_branch_origin,
}
use complex_git_sync.Branch.Names.{branch_suffix, branch_parts, twin_start, suffix_cases}

twin_base :
    (p : Text) → private_local_branch p main_branch true none ≡ twin_branch_owner ++ separator ∷ p
unfolding private_local_branch branch_base text_eq
twin_base p = refl

starts_with-append : (p t : Text) → starts_with p (p ++ t) ≡ true
starts_with-append p t = rw (starts_with, after_prefix-append p t) refl

starts_with-parts : (p text : Text) → starts_with p text ≡ true → (t : Text) × (text ≡ p ++ t)
starts_with-parts p text h = elim (Option-cases (after_prefix p text)) [
  | inl gone ↦ absurd (false_ne_true (sym (missing gone) ∙ h))
  | inr (t, found) ↦ (t, after_prefix-some p text t found)
]
  where
    missing : after_prefix p text ≡ none → starts_with p text ≡ false
    missing gone = rw (starts_with, gone) refl

or_cases : (a b : Bool) → (a || b) ≡ true → (a ≡ true) ⊎ (b ≡ true)
or_cases true b h = inl refl
or_cases false b h = inr h

is_twin_branch-parts :
    (p t : Text) → is_twin_branch p t ≡ true → (x : Text) × (t ≡ twin_branch_owner ++ separator ∷ x)
unfolding is_twin_branch
is_twin_branch-parts p t h = elim (or_cases _ _ h) [
  | inl same ↦ (p, text_eq→eq t (private_local_branch p main_branch true none) same ∙ twin_base p)
  | inr starts ↦
      let (x, whole) =
        starts_with-parts (private_local_branch p main_branch true none ++ separator ∷ []) t
          starts in
      (
        p ++ separator ∷ x,
        whole
            ∙ ap (λ base. (base ++ separator ∷ []) ++ x) (twin_base p)
            ∙ append_assoc (twin_branch_owner ++ separator ∷ p) (separator ∷ []) x
            ∙ append_assoc twin_branch_owner (separator ∷ p) (separator ∷ x),
      )
]

is_twin_branch-suffix :
    (p b : Text) → is_twin_branch p (twin_branch_owner ++ separator ∷ (p ++ separator ∷ b)) ≡ true
unfolding is_twin_branch
is_twin_branch-suffix p b =
    elim (Bool-cases (
      text_eq (twin_branch_owner ++ separator ∷ (p ++ separator ∷ b))
        (private_local_branch p main_branch true none))) [
          | inl same ↦ rw (is_twin_branch, same) refl
          | inr differ ↦ rw (is_twin_branch, differ) started
        ]
  where
    started :
        starts_with
          (private_local_branch p main_branch true none ++ separator ∷ [])
          (twin_branch_owner ++ separator ∷ (p ++ separator ∷ b))
        ≡ true
    started =
        ap (starts_with (private_local_branch p main_branch true none ++ separator ∷ [])) (
          sym (
            ap (λ base. (base ++ separator ∷ []) ++ b) (twin_base p)
            ∙ append_assoc (twin_branch_owner ++ separator ∷ p) (separator ∷ []) b
            ∙ append_assoc twin_branch_owner (separator ∷ p) (separator ∷ b)))
        ∙ starts_with-append (private_local_branch p main_branch true none ++ separator ∷ []) b

is_twin_branch-main : (p : Text) → is_twin_branch p (twin_branch_owner ++ separator ∷ p) ≡ true
unfolding is_twin_branch
is_twin_branch-main p = rw (is_twin_branch, same) refl
  where
    same :
        text_eq (twin_branch_owner ++ separator ∷ p) (private_local_branch p main_branch true none)
        ≡ true
    same =
        ap (text_eq (twin_branch_owner ++ separator ∷ p)) (twin_base p)
        ∙ text_eq_refl (twin_branch_owner ++ separator ∷ p)

twin_branch :
    (p b : Text)
    → private_local_branch p b true none ≡ twin_branch_owner ++ separator ∷ (p ++ branch_suffix b)
twin_branch p b =
    branch_parts p b true none
    ∙ append_assoc twin_branch_owner (separator ∷ []) (p ++ branch_suffix b)

is_twin_branch-twin : (p b : Text) → is_twin_branch p (private_local_branch p b true none) ≡ true
is_twin_branch-twin p b = elim (suffix_cases p b) [
  | inl m ↦
      ap (is_twin_branch p) (twin_branch p b ∙ ap (λ x. twin_branch_owner ++ separator ∷ x) m.1)
      ∙ is_twin_branch-main p
  | inr m ↦
      ap (is_twin_branch p) (twin_branch p b ∙ ap (λ x. twin_branch_owner ++ separator ∷ x) m)
      ∙ is_twin_branch-suffix p b
]

pub is_twin_branch-private_local_branch :
    (p q b c : Text)
    → has_separator q ≡ false
    → (is_twin_branch p (private_local_branch p b true none) ≡ true)
      × (is_twin_branch p (private_local_branch q c false none) ≡ true → q ≡ twin_branch_owner)
is_twin_branch-private_local_branch p q b c hq = (
  is_twin_branch-twin p b,
  λ h.
      let (x, whole) = is_twin_branch-parts p (private_local_branch q c false none) h in
      (twin_start q c x hq (sym whole ∙ branch_parts q c false none)).0,
)

-- The name that a branch was closed from is read back, and only from the name that it was given.
pub closed_branch_origin_iff :
    (closed b : Text)
    → (closed_branch_origin closed ≡ some b) ↔ ((closed ≡ closed_branch_name b) × (b ≢ []))
unfolding closed_branch_name closed_branch_origin
closed_branch_origin_iff closed b = (forth (after_prefix closed_branch_prefix closed) refl, back b)
  where
    forth :
        (o : Option Text)
        → after_prefix closed_branch_prefix closed ≡ o
        → closed_branch_origin closed ≡ some b
        → (closed ≡ closed_branch_prefix ++ b) × (b ≢ [])
    forth none found e = absurd (none_ne_some (sym (rw (closed_branch_origin, found) refl) ∙ e))
    forth (some []) found e =
        absurd (none_ne_some (sym (rw (closed_branch_origin, found) refl) ∙ e))
    forth (some (c ∷ cs)) found e =
        let value : c ∷ cs ≡ b = some_inj (sym (rw (closed_branch_origin, found) refl) ∙ e) in
        (
          after_prefix-some closed_branch_prefix closed (c ∷ cs) found
              ∙ ap (λ t. closed_branch_prefix ++ t) value,
          λ empty. nil_ne_cons (sym (value ∙ empty)),
        )

    back :
        (b : Text)
        → (closed ≡ closed_branch_prefix ++ b) × (b ≢ [])
        → closed_branch_origin closed ≡ some b
    back [] h = absurd (h.1 refl)
    back (c ∷ cs) h =
        rw
          (
            closed_branch_origin,
            ap (after_prefix closed_branch_prefix) h.0
                ∙ after_prefix-append closed_branch_prefix (c ∷ cs),
          )
          refl
