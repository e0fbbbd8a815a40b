-- ===== src/Omniscience/Checkpoints/Sticky.antt =====
-- omniscience/omniscience_checkpoints.py: what an extension covers.
use complex_git_sync.Prelude.{
  ◌≡◌, refl, sym, ap, subst, ◌∙◌, ◌⊎◌, inl, inr, Bool, true, false, ◌&&◌, ◌||◌, not, Option, none,
  some, List, [], ◌∷◌, ◌++◌, arith, Bool-cases, Option-cases, if_cases, any, is_empty, Text, Bytes,
  text_eq, Result, ok, err,
}
use complex_git_sync.Omniscience.Record.{OmniscienceRecord, own_hash}
use complex_git_sync.Omniscience.Checkpoints.Dictionary.{
  HashKeyed, HashKeyed-put_record, checkpoint_body-is_key, valid_of-HashKeyed, Covers, cover-Covers,
  or_false, is_key-put_record, any-cons, or_true, put_kept, valid_of-HashKeyed,
}
use complex_git_sync.Omniscience.Checkpoints.{
  build_on, build_from, body_hash, Records, put_record, get_record, values, member, RegisterFile,
  global_index, checkpoint_body, is_key, accept, valid_of, Checkpoint, ChainError, Chain, Extension,
  extended, covered_of, head_text, nothing_new, conclude, build, chain_of,
}

module _ (sha256 : Bytes → Bytes) where
  -- A file whose record has this hash and no problem.
  unfoldable pub newly_value :
      (OmniscienceRecord → Text → Bool) → Text → Text → Option OmniscienceRecord → Bool
  newly_value problem h branch none = false
  newly_value problem h branch (some r) = text_eq (own_hash sha256 r) h && not (problem r branch)

  abbrev pub newly : (OmniscienceRecord → Text → Bool) → Text → RegisterFile → Bool
  newly problem h f = newly_value problem h f.branch f.value

  -- What the loop over the files adds.
  record Accepts (problem : OmniscienceRecord → Text → Bool) (accepted done : Records)
      (files : List RegisterFile) : Type 0 where
    keyed : HashKeyed sha256 done
    kept : (h : Text) → is_key accepted h ≡ true → is_key done h ≡ true
    added :
        (h : Text)
        → is_key done h ≡ true
        → (is_key accepted h ≡ true) ⊎ (any (newly problem h) files ≡ true)

  Accepts-skip :
      (problem : OmniscienceRecord → Text → Bool) (accepted done : Records) (f : RegisterFile)
      (files : List RegisterFile)
      → Accepts problem accepted done files
      → Accepts problem accepted done (f ∷ files)
  Accepts-skip problem accepted done f files a = record {
    keyed = a.keyed;
    kept = a.kept;
    added = λ h is. elim (a.added h is) [
      | inl before ↦ inl before
      | inr new ↦ inr (any-cons (newly problem h f) (any (newly problem h) files) new)
    ];
  }

  Accepts-put :
      (problem : OmniscienceRecord → Text → Bool) (accepted done : Records) (f : RegisterFile)
      (files : List RegisterFile) (r : OmniscienceRecord)
      → f.value ≡ some r
      → problem r f.branch ≡ false
      → Accepts problem (put_record (own_hash sha256 r) r accepted) done files
      → Accepts problem accepted done (f ∷ files)
  unfolding newly_value
  Accepts-put problem accepted done f files r there fine a = record {
    keyed = a.keyed;
    kept = λ h is. a.kept h (put_kept accepted (own_hash sha256 r) r h is);
    added = λ h is. elim (a.added h is) [
      | inr new ↦ inr (any-cons (newly problem h f) (any (newly problem h) files) new)
      | inl put ↦
          let put_is = is_key-put_record accepted (own_hash sha256 r) h r in
          elim (Bool-cases (text_eq (own_hash sha256 r) h)) [
            | inr other ↦ inl (ground arith)
            | inl same ↦ inr (
                or_true (any (newly problem h) files)
                  (ap (newly_value problem h f.branch) there ∙ (rw (same, fine) refl)))
          ]
    ];
  }

  Accepts-step :
      (problem : OmniscienceRecord → Text → Bool) (accepted : Records)
      (unaccepted : List RegisterFile) (f : RegisterFile) (files : List RegisterFile)
      (out : Records × List RegisterFile)
      → accept sha256 problem accepted unaccepted (f ∷ files) ≡ out
      → Accepts problem accepted out.0 (f ∷ files)
      → Accepts problem accepted
          (accept sha256 problem accepted unaccepted (f ∷ files)).0
          (f ∷ files)
  Accepts-step problem accepted unaccepted f files out e a =
      subst (λ (o : Records × List RegisterFile). Accepts problem accepted o.0 (f ∷ files)) (sym e)
        a

  accept-Accepts :
      (problem : OmniscienceRecord → Text → Bool) (files : List RegisterFile) (accepted : Records)
      (unaccepted : List RegisterFile)
      → HashKeyed sha256 accepted
      → Accepts problem accepted (accept sha256 problem accepted unaccepted files).0 files
  unfolding accept
  accept-Accepts problem [] accepted unaccepted keyed = record {
    keyed = keyed;
    kept = λ h is. is;
    added = λ h is. inl is;
  }
  accept-Accepts problem (f ∷ files) accepted unaccepted keyed =
      let step = Accepts-step problem accepted unaccepted f files in
      let refused =
        Accepts-skip problem accepted _ f files
          (accept-Accepts problem files accepted (unaccepted ++ f ∷ []) keyed) in
      elim (Option-cases f.value) [
        | inl no_value ↦
            step (accept sha256 problem accepted (unaccepted ++ f ∷ []) files)
              (simp (accept, no_value) refl) refused
        | inr (r, there) ↦ elim (Bool-cases (is_key accepted (own_hash sha256 r))) [
          | inl already ↦
              step (accept sha256 problem accepted unaccepted files)
                (simp (accept, there, already) refl)
                (Accepts-skip problem accepted _ f files
                  (accept-Accepts problem files accepted unaccepted keyed))
          | inr fresh ↦ elim (Bool-cases (problem r f.branch)) [
            | inl refuses ↦
                step (accept sha256 problem accepted (unaccepted ++ f ∷ []) files)
                  (simp (accept, there, fresh, refuses) refl) refused
            | inr fine ↦
                step
                  (accept sha256 problem (put_record (own_hash sha256 r) r accepted) unaccepted
                    files)
                  (simp (accept, there, fresh, fine) refl)
                  (Accepts-put problem accepted _ f files r there fine (
                    accept-Accepts problem files (put_record (own_hash sha256 r) r accepted)
                      unaccepted
                      (HashKeyed-put_record sha256 accepted (own_hash sha256 r) r refl keyed)))
          ]
        ]
      ]

  -- What the body of an extension covers: all that the head covered, and else only records of files
  -- that have no problem.
  pub record Extends (problem : OmniscienceRecord → Text → Bool) (covered : List Text)
      (files : List RegisterFile) (body : Checkpoint) : Type 0 where
    pub kept : (h : Text) → member h covered ≡ true → member h body.records ≡ true
    pub added :
        (h : Text)
        → member h body.records ≡ true
        → (member h covered ≡ true) ⊎ (any (newly problem h) files ≡ true)

  Accepts-Extends :
      (problem : OmniscienceRecord → Text → Bool) (covered : List Text) (parent : Text)
      (files : List RegisterFile) (accepted done : Records)
      → ((h : Text) → is_key accepted h ≡ (member h covered || is_key [] h))
      → Accepts problem accepted done files
      → Extends problem covered files
          (checkpoint_body sha256 (global_index sha256 (values done)) parent)
  unfolding get_record
  Accepts-Extends problem covered parent files accepted done covers a = record {
    kept = λ h is.
        checkpoint_body-is_key sha256 done parent h a.keyed
        ∙ a.kept h (covers h ∙ or_true false is);
    added = λ h is.
        elim (a.added h (sym (checkpoint_body-is_key sha256 done parent h a.keyed) ∙ is)) [
          | inl before ↦ inl (sym (or_false (member h covered)) ∙ sym (covers h) ∙ before)
          | inr new ↦ inr new
        ];
  }

  conclude-Extends :
      (problem : OmniscienceRecord → Text → Bool) (files : List RegisterFile) (head : Option Text)
      (covered : List Text) (accepted done : Records) (left : List RegisterFile) (name : Text)
      (body : Checkpoint) (unaccepted : List RegisterFile)
      → ((h : Text) → is_key accepted h ≡ (member h covered || is_key [] h))
      → Accepts problem accepted done files
      → conclude sha256 head covered (done, left) ≡ extended name body unaccepted
      → (body.parent ≡ head_text head)
        × (name ≡ body_hash sha256 body)
        × Extends problem covered files body
  unfolding conclude
  conclude-Extends problem files head covered accepted done left name body unaccepted covers a e =
      let made : Checkpoint =
        checkpoint_body sha256 (global_index sha256 (values done)) (head_text head) in
      elim (if_cases (nothing_new head covered done) e) [
        | inl (old, is) ↦ absurd (cc)
        | inr (new, is) ↦
            let body_is : made ≡ body =
              ap (λ (x : Extension). elim x [ extended n b u ↦ b | _ ↦ body ]) is in
            let name_is : body_hash sha256 made ≡ name =
              ap (λ (x : Extension). elim x [ extended n b u ↦ n | _ ↦ name ]) is in
            (
              sym (ap (λ (b : Checkpoint). b.parent) body_is) ∙ (unfold checkpoint_body in refl),
              sym name_is ∙ ap (body_hash sha256) body_is,
              subst (Extends problem covered files) body_is
                  (Accepts-Extends problem covered (head_text head) files accepted done covers a),
            )
      ]

  build_on-Extends :
      (problem : OmniscienceRecord → Text → Bool) (files : List RegisterFile) (head : Option Text)
      (covered : List Text) (found : Records × List Text) (name : Text) (body : Checkpoint)
      (unaccepted : List RegisterFile)
      → Covers sha256 [] covered found
      → build_on sha256 problem files head covered found ≡ extended name body unaccepted
      → (body.parent ≡ head_text head)
        × (name ≡ body_hash sha256 body)
        × Extends problem covered files body
  unfolding build_on Covers
  build_on-Extends problem files head covered (accepted, lost) name body unaccepted (keyed, covers)
        e =
      elim (if_cases (is_empty lost) e) [
        | inl (none_lost, is) ↦
            conclude-Extends problem files head covered accepted _ _ name body unaccepted
              (covers none_lost) (accept-Accepts problem files accepted [] keyed) is
        | inr (some_lost, is) ↦ absurd (cc)
      ]

  build_from-Extends :
      (problem : OmniscienceRecord → Text → Bool) (files : List RegisterFile)
      (result : Result ChainError (Chain × Option Text)) (name : Text) (body : Checkpoint)
      (unaccepted : List RegisterFile)
      → build_from sha256 problem files result ≡ extended name body unaccepted
      → (chain : Chain) × (head : Option Text) × (result ≡ ok (chain, head))
        × (body.parent ≡ head_text head)
        × (name ≡ body_hash sha256 body)
        × Extends problem (covered_of chain head) files body
  unfolding build_from HashKeyed
  build_from-Extends problem files (err reason) name body unaccepted e = absurd (cc)
  build_from-Extends problem files (ok (chain, head)) name body unaccepted e =
      let valid = valid_of-HashKeyed sha256 [] files tt in
      let covers =
        cover-Covers sha256 (valid_of sha256 [] files) [] (covered_of chain head) valid tt in
      let (hangs, named, ext) =
        build_on-Extends problem files head (covered_of chain head) _ name body unaccepted covers
          e in
      (chain, head, refl, hangs, named, ext)

  -- An extension hangs on the head of a sound chain, is named by its own hash, keeps all that the
  -- head covers, and adds only accepted records.
  pub build-Extends :
      (problem : OmniscienceRecord → Text → Bool) (chain_files : List (Text × Option Checkpoint))
      (files : List RegisterFile) (name : Text) (body : Checkpoint) (unaccepted : List RegisterFile)
      → build sha256 problem chain_files files ≡ extended name body unaccepted
      → (chain : Chain) × (head : Option Text) × (chain_of sha256 chain_files ≡ ok (chain, head))
        × (body.parent ≡ head_text head)
        × (name ≡ body_hash sha256 body)
        × Extends problem (covered_of chain head) files body
  unfolding build
  build-Extends problem chain_files files name body unaccepted e =
      build_from-Extends problem files (chain_of sha256 chain_files) name body unaccepted e
