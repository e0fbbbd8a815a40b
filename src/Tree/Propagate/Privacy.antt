-- ===== src/Tree/Propagate/Privacy.antt =====
-- The flags after `propagate_privacy`, where the parents form no cycle (tree/git_tree.py).
use complex_git_sync.Prelude.{
  ℕ, zero, suc, ◌≤◌, ◌<◌, ◌≡◌, refl, sym, ap, ap₂, subst, ◌∙◌, inl, inr, false, Option, none, some,
  List, [], ◌∷◌, map, arith, Bool-cases, Option-cases, some_inj, none_ne_some, length, All, Text,
  text_eq, text_eq_refl, text_eq→eq,
}
use complex_git_sync.Repo.{WorkingRepo}
use complex_git_sync.Tree.{find_repo}
use complex_git_sync.Tree.Propagate.Lookup.{
  under_found, answer_of-cons, flags_in, flags_in-some, Follows,
}
use complex_git_sync.Tree.Registry.{DistinctIds, IsRegistry, DistinctIds-IsRegistry}
use complex_git_sync.Tree.Propagate.{
  Flags, Answers, answer_of, parent_in, declared_flags, inherit, is_in, resolve, with_flags,
  propagate_from, propagate_privacy,
}

-- A depth of the entries below the number of entries, smaller for a parent: there is no cycle.
pub record Ranked (repos : List WorkingRepo) (rank : Text → ℕ) : Type 0 where
  pub parent_lower :
      (r p : WorkingRepo)
      → find_repo repos r.repo_id ≡ some r
      → parent_in repos r ≡ some p
      → rank p.repo_id < rank r.repo_id
  pub bounded : (id : Text) → rank id ≤ length repos

module _ (repos : List WorkingRepo) where
  Extends : Answers → Answers → Type 0
  Extends before after =
      (id : Text) (flags : Flags)
      → answer_of before id ≡ some flags
      → answer_of after id ≡ some flags

  -- The flags follow from the parent's answer.
  abbrev Ruled : Answers → WorkingRepo → Flags → Option WorkingRepo → Type 0
  Ruled answers r flags none = flags ≡ declared_flags r
  Ruled answers r flags (some p) =
      (f : Flags) × (answer_of answers p.repo_id ≡ some f) × (flags ≡ inherit r f)

  Sound : Answers → Type 0
  Sound answers =
      (r : WorkingRepo) (flags : Flags)
      → find_repo repos r.repo_id ≡ some r
      → answer_of answers r.repo_id ≡ some flags
      → Ruled answers r flags (parent_in repos r)

  Ruled-Extends :
      (before after : Answers) (r : WorkingRepo) (flags : Flags) (o : Option WorkingRepo)
      → Extends before after
      → Ruled before r flags o
      → Ruled after r flags o
  unfolding Extends
  Ruled-Extends before after r flags none ext h = h
  Ruled-Extends before after r flags (some p) ext (f, there, rule) =
      (f, ext p.repo_id f there, rule)

  Extends-cons :
      (answers : Answers) (id : Text) (flags : Flags)
      → answer_of answers id ≡ none
      → Extends answers ((id, flags) ∷ answers)
  unfolding Extends answer_of
  Extends-cons answers id flags fresh other f there = elim (Bool-cases (text_eq id other)) [
    | inl same ↦ absurd (
        none_ne_some (
          sym fresh
          ∙ subst (λ i. answer_of answers i ≡ some f) (sym (text_eq→eq id other same)) there))
    | inr differ ↦ rw (differ) there
  ]

  Sound-cons :
      (answers : Answers) (r : WorkingRepo) (flags : Flags)
      → Sound answers
      → find_repo repos r.repo_id ≡ some r
      → answer_of answers r.repo_id ≡ none
      → Ruled answers r flags (parent_in repos r)
      → Sound ((r.repo_id, flags) ∷ answers)
  unfolding Sound
  Sound-cons answers r flags sound found fresh rule s f sfound there =
      elim (answer_of-cons answers r.repo_id s.repo_id flags f there) [
        | inl (same, is) ↦
            let one : r ≡ s =
              some_inj (sym found ∙ subst (λ i. find_repo repos i ≡ some s) (sym same) sfound) in
            let later =
              Ruled-Extends answers ((r.repo_id, flags) ∷ answers) r flags _
                (Extends-cons answers r.repo_id flags fresh) rule in
            subst (λ g. Ruled ((r.repo_id, flags) ∷ answers) s g (parent_in repos s)) is
              (subst (λ t. Ruled ((r.repo_id, flags) ∷ answers) t flags (parent_in repos t)) one
                later)
        | inr before ↦
            Ruled-Extends answers ((r.repo_id, flags) ∷ answers) s f _
              (Extends-cons answers r.repo_id flags fresh) (sound s f sfound before)
      ]

  module _ (rank : Text → ℕ) (ranked : Ranked repos rank) where
    -- What one call of `resolve` leaves: nothing of a greater rank is answered on the way.
    record Resolves (answers : Answers) (r : WorkingRepo) (out : Flags × Answers) : Type 0 where
      extends : Extends answers out.1
      sound : Sound out.1
      answered : answer_of out.1 r.repo_id ≡ some out.0
      above :
          (id : Text)
          → rank r.repo_id < rank id
          → answer_of answers id ≡ none
          → answer_of out.1 id ≡ none

    Resolves-cons :
        (answers after : Answers) (r : WorkingRepo) (flags : Flags)
        → Extends answers after
        → Sound after
        → find_repo repos r.repo_id ≡ some r
        → ((id : Text)
            → rank r.repo_id ≤ rank id
            → answer_of answers id ≡ none
            → answer_of after id ≡ none)
        → answer_of answers r.repo_id ≡ none
        → Ruled after r flags (parent_in repos r)
        → Resolves answers r (flags, (r.repo_id, flags) ∷ after)
    unfolding Extends answer_of
    Resolves-cons answers after r flags ext sound found keep fresh rule =
        let fresh2 = keep r.repo_id (omega arith) fresh in
        record {
          extends = λ id f there. Extends-cons after r.repo_id flags fresh2 id f (ext id f there);
          sound = Sound-cons after r flags sound found fresh2 rule;
          answered = rw (text_eq_refl r.repo_id) refl;
          above = λ id higher none_yet. elim (Bool-cases (text_eq r.repo_id id)) [
            | inl same ↦
                let e : rank r.repo_id ≡ rank id = ap rank (text_eq→eq r.repo_id id same) in
                absurd (omega arith)
            | inr differ ↦ rw (differ) (keep id (omega arith) none_yet)
          ];
        }

    is_in-below :
        (id : Text) (ids : List Text) (b : ℕ)
        → All (λ i. b < rank i) ids
        → rank id ≤ b
        → is_in id ids ≡ false
    unfolding is_in
    is_in-below id [] b h le = refl
    is_in-below id (i ∷ ids) b (lt, h) le = elim (Bool-cases (text_eq i id)) [
      | inl same ↦ let e : rank i ≡ rank id = ap rank (text_eq→eq i id same) in absurd (omega arith)
      | inr differ ↦ rw (differ) (is_in-below id ids b h le)
    ]

    higher_All :
        (ids : List Text) (a b : ℕ) → a ≤ b → All (λ i. b < rank i) ids → All (λ i. a < rank i) ids
    higher_All [] a b le h = tt
    higher_All (i ∷ ids) a b le (lt, h) = (omega arith, higher_All ids a b le h)

    cached-Resolves :
        (answers : Answers) (r : WorkingRepo) (flags : Flags)
        → answer_of answers r.repo_id ≡ some flags
        → Sound answers
        → Resolves answers r (flags, answers)
    unfolding Extends
    cached-Resolves answers r flags cached sound = record {
      extends = λ i f e. e;
      sound = sound;
      answered = cached;
      above = λ i lt e. e;
    }

    under-Resolves :
        (answers : Answers) (r p : WorkingRepo) (out : Flags × Answers)
        → find_repo repos r.repo_id ≡ some r
        → answer_of answers r.repo_id ≡ none
        → parent_in repos r ≡ some p
        → rank p.repo_id < rank r.repo_id
        → Resolves answers p out
        → Resolves answers r (inherit r out.0, (r.repo_id, inherit r out.0) ∷ out.1)
    under-Resolves answers r p (flags, after) found fresh under lower step =
        Resolves-cons answers after r (inherit r flags) step.extends step.sound found
          (λ id le none_yet. step.above id (omega arith) none_yet) fresh
          (subst (Ruled after r (inherit r flags)) (sym under) (flags, step.answered, refl))

    resolve-Resolves :
        (fuel : ℕ) (resolving : List Text) (answers : Answers) (r : WorkingRepo)
        → rank r.repo_id < fuel
        → All (λ i. rank r.repo_id < rank i) resolving
        → Sound answers
        → find_repo repos r.repo_id ≡ some r
        → Resolves answers r (resolve fuel repos resolving answers r)
    unfolding resolve Extends
    resolve-Resolves zero resolving answers r fuelled high sound found = absurd (omega arith)
    resolve-Resolves (suc fuel) resolving answers r fuelled high sound found =
        elim (Option-cases (answer_of answers r.repo_id)) [
          | inr (flags, cached) ↦
              rw (resolve, cached) (cached-Resolves answers r flags cached sound)
          | inl fresh ↦
              let new : is_in r.repo_id resolving ≡ false =
                is_in-below r.repo_id resolving (rank r.repo_id) high (omega arith) in
              elim (Option-cases (parent_in repos r)) [
                | inl root ↦
                    rw (resolve, fresh, new, root)
                      (Resolves-cons answers answers r (declared_flags r) (λ i f e. e) sound found
                        (λ i le e. e) fresh
                        (subst (Ruled answers r (declared_flags r)) (sym root) refl))
                | inr (p, under) ↦
                    let lower = ranked.parent_lower r p found under in
                    let step =
                      resolve-Resolves fuel (r.repo_id ∷ resolving) answers p (omega arith)
                        (lower, higher_All resolving _ _ (omega arith) high) sound
                        (under_found repos r.repo_id r.parent_id p under) in
                    rw (resolve, fresh, new, under)
                      (under-Resolves answers r p _ found fresh under lower step)
              ]
        ]

    Ruled-Follows :
        (answers : Answers) (r : WorkingRepo) (flags : Flags) (o : Option WorkingRepo)
        → answer_of answers r.repo_id ≡ some flags
        → Ruled answers r flags o
        → Follows (flags_in answers) r o
    Ruled-Follows answers r flags none there rule =
        flags_in-some answers r.repo_id flags there ∙ rule
    Ruled-Follows answers r flags (some p) there (f, above, rule) =
        flags_in-some answers r.repo_id flags there
        ∙ rule
        ∙ sym (ap (inherit r) (flags_in-some answers p.repo_id f above))

    record Propagates (answers : Answers) (rest out : List WorkingRepo) (final : Answers)
        : Type 0 where
      extends : Extends answers final
      sound : Sound final
      flagged : out ≡ map (λ r. with_flags r (flags_in final r.repo_id)) rest
      follows : All (λ r. Follows (flags_in final) r (parent_in repos r)) rest

    deep : (r : WorkingRepo) → rank r.repo_id < suc (length repos)
    deep r = let b = ranked.bounded r.repo_id in omega arith

    propagate_from-Propagates :
        (rest : List WorkingRepo) (answers : Answers)
        → Sound answers
        → IsRegistry repos rest
        → (final : Answers) × Propagates answers rest (propagate_from repos answers rest) final
    unfolding propagate_from Extends Sound
    propagate_from-Propagates [] answers sound all =
        (answers, record { extends = λ i f e. e; sound = sound; flagged = refl; follows = tt })
    propagate_from-Propagates (r ∷ rest) answers sound (found, all) =
        let one = resolve-Resolves (suc (length repos)) [] answers r (deep r) tt sound found in
        let (final, more) = propagate_from-Propagates rest _ one.sound all in
        let there = more.extends r.repo_id _ one.answered in
        (
          final,
          record {
            extends = λ i f e. more.extends i f (one.extends i f e);
            sound = more.sound;
            flagged =
                ap₂ (λ f out. with_flags r f ∷ out) (sym (flags_in-some final r.repo_id _ there))
                  more.flagged;
            follows = (Ruled-Follows final r _ _ there (more.sound r _ found there), more.follows);
          },
        )

-- The flags that `propagate_privacy` leaves are those that the rule sets.
pub propagate_privacy-Follows :
    (repos : List WorkingRepo) (rank : Text → ℕ)
    → DistinctIds repos
    → Ranked repos rank
    → (flags : Text → Flags) × (propagate_privacy repos
        ≡ map (λ r. with_flags r (flags r.repo_id)) repos)
      × All (λ r. Follows flags r (parent_in repos r)) repos
unfolding propagate_privacy Sound answer_of
propagate_privacy-Follows repos rank distinct ranked =
    let start : Sound repos [] = λ r f found there. absurd (none_ne_some there) in
    let (final, done) =
      propagate_from-Propagates repos rank ranked repos [] start
        (DistinctIds-IsRegistry repos distinct) in
    (flags_in final, done.flagged, done.follows)
