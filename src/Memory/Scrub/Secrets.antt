-- ===== src/Memory/Scrub/Secrets.antt =====
-- Argument lists that differ in secrets alone, under `ArgvScrubber.scrub`.
use complex_git_sync.Prelude.{
  ℕ, ◌≡◌, refl, sym, ap, ◌∙◌, inl, inr, false, not, Option, none, some, List, [], ◌∷◌, ◌++◌,
  if◌then◌else◌, Bool-cases, false_ne_true, Option-cases, Text, codes, after_prefix,
}
use complex_git_sync.Memory.Scrub.{
  scrub_url_userinfo, redacted, bare, joined, flag_tail, first_match, secret_flag, path_name,
  partition_eq, split_flag, is_absolute, in_tree, scrub_path, scrub_loop, scrub,
}
use complex_git_sync.Memory.Scrub.Flags.{
  OneLine, SecretName, a_token, a_password, a_service, joined_flag, last_component-OneLine,
  secret_flag-bare, alone,
}
use complex_git_sync.Memory.Scrub.Urls.{
  Url, url_of, secret_flag-Url, scrub_url_userinfo-Url, is_absolute-Url, split_flag-letter,
}

module _ (tree : Option (Text → Option Text)) where
  scrub_path-bare :
      (name : Text) → SecretName name → scrub_path tree (codes "--" ++ name) ≡ codes "--" ++ name
  unfolding scrub_path split_flag is_absolute partition_eq after_prefix
  scrub_path-bare _ a_token = refl
  scrub_path-bare _ a_password = refl
  scrub_path-bare _ a_service = refl

  bare_flag : (name : Text) → SecretName name → secret_flag (codes "--" ++ name) ≡ some (bare name)
  unfolding secret_flag first_match after_prefix flag_tail
  bare_flag _ a_token = refl
  bare_flag _ a_password = refl
  bare_flag _ a_service = refl

  -- `_scrub_path` after the split of the argument.
  unfoldable split_path : Text → Text × Text → Text
  split_path argument parts =
      let (prefix, value) = parts in
      if not (is_absolute value) then argument else elim (in_tree tree value) [
        | some written ↦ prefix ++ written
        | none ↦ prefix ++ path_name value
      ]

  -- `_scrub_path` keeps the flag, and writes one line for a value of one line.
  scrub_path-split :
      (arg prefix value : Text)
      → split_flag arg ≡ (prefix, value)
      → arg ≡ prefix ++ value
      → OneLine value
      → ((v w : Text) → OneLine v → in_tree tree v ≡ some w → OneLine w)
      → (w : Text) × OneLine w × (scrub_path tree arg ≡ prefix ++ w)
  unfolding scrub_path split_path
  scrub_path-split arg prefix value e whole line keeps = elim (Bool-cases (is_absolute value)) [
    | inr relative ↦ (value, line, ap (split_path arg) e ∙ rw relative whole)
    | inl absolute ↦ elim (Option-cases (in_tree tree value)) [
      | inl outside ↦ (
        path_name value,
        last_component-OneLine value [] [] tt tt line,
        ap (split_path arg) e
            ∙ rw absolute (
                ap
                  (λ o. elim o [
                    | some written ↦ prefix ++ written
                    | none ↦ prefix ++ path_name value
                  ])
                  outside),
      )
      | inr (w, inside) ↦ (
        w,
        keeps value w line inside,
        ap (split_path arg) e
            ∙ rw absolute (
                ap
                  (λ o. elim o [
                    | some written ↦ prefix ++ written
                    | none ↦ prefix ++ path_name value
                  ])
                  inside),
      )
    ]
  ]

  scrub_path-Url :
      (first second : ℕ) (more info rest : Text)
      → Url first second more info rest
      → scrub_path tree (url_of first second more info rest) ≡ url_of first second more info rest
  unfolding scrub_path split_path
  scrub_path-Url first second more info rest url =
      ap (split_path (url_of first second more info rest)) (
        split_flag-letter first (second ∷ (more ++ (b':' ∷ b'/' ∷ b'/' ∷ (info ++ (b'@' ∷ rest)))))
          url.letter)
      ∙ rw (is_absolute-Url first second more info rest url.letter url.second_char) refl

  scrub_path-joined :
      (name value : Text)
      → SecretName name
      → OneLine value
      → ((v w : Text) → OneLine v → in_tree tree v ≡ some w → OneLine w)
      → secret_flag (scrub_path tree (codes "--" ++ (name ++ (b'=' ∷ value)))) ≡ some (joined name)
  unfolding split_flag partition_eq after_prefix
  scrub_path-joined _ value a_token line keeps =
      let (w, short, e) =
        scrub_path-split (codes "--token=" ++ value) (codes "--token=") value refl refl line
          keeps in
      ap secret_flag e ∙ joined_flag _ w a_token short
  scrub_path-joined _ value a_password line keeps =
      let (w, short, e) =
        scrub_path-split (codes "--password=" ++ value) (codes "--password=") value refl refl line
          keeps in
      ap secret_flag e ∙ joined_flag _ w a_password short
  scrub_path-joined _ value a_service line keeps =
      let (w, short, e) =
        scrub_path-split (codes "--service=" ++ value) (codes "--service=") value refl refl line
          keeps in
      ap secret_flag e ∙ joined_flag _ w a_service short

  -- Two argument lists that differ in secrets alone: in the argument after a secret flag that
  -- stands alone, in the value joined to a secret flag, where that is one line, or in the userinfo of
  -- a URL.
  pub data Alike : List Text → List Text → Type 0 where
    done : Alike [] []
    next_value :
        {xs ys : List Text} (a b name : Text)
        → SecretName name
        → Alike xs ys
        → Alike ((codes "--" ++ name) ∷ a ∷ xs) ((codes "--" ++ name) ∷ b ∷ ys)
    joined_value :
        {xs ys : List Text} (a b name : Text)
        → SecretName name
        → OneLine a
        → OneLine b
        → Alike xs ys
        → Alike
            ((codes "--" ++ (name ++ (b'=' ∷ a))) ∷ xs)
            ((codes "--" ++ (name ++ (b'=' ∷ b))) ∷ ys)
    userinfo :
        {xs ys : List Text} (first second : ℕ) (more a b rest : Text)
        → Url first second more a rest
        → Url first second more b rest
        → Alike xs ys
        → Alike (url_of first second more a rest ∷ xs) (url_of first second more b rest ∷ ys)
    same :
        {xs ys : List Text} (a : Text)
        → alone (scrub_path tree a) ≡ false
        → Alike xs ys
        → Alike (a ∷ xs) (a ∷ ys)

  scrub_loop-joined :
      (arg name : Text) (argv : List Text)
      → secret_flag (scrub_path tree arg) ≡ some (joined name)
      → scrub_loop tree false (arg ∷ argv)
        ≡ (codes "--" ++ (name ++ (b'=' ∷ redacted))) ∷ scrub_loop tree false argv
  unfolding scrub_loop
  scrub_loop-joined arg name argv e = rw e refl

  scrub_loop-bare :
      (arg name value : Text) (argv : List Text)
      → secret_flag (scrub_path tree arg) ≡ some (bare name)
      → scrub_loop tree false (arg ∷ value ∷ argv)
        ≡ scrub_path tree arg ∷ redacted ∷ scrub_loop tree false argv
  unfolding scrub_loop
  scrub_loop-bare arg name value argv e = rw e refl

  scrub_loop-plain :
      (arg : Text) (argv : List Text)
      → secret_flag (scrub_path tree arg) ≡ none
      → scrub_loop tree false (arg ∷ argv)
        ≡ scrub_url_userinfo (scrub_path tree arg) ∷ scrub_loop tree false argv
  unfolding scrub_loop
  scrub_loop-plain arg argv e = rw e refl

  scrub_loop-Url :
      (first second : ℕ) (more info rest : Text) (argv : List Text)
      → Url first second more info rest
      → scrub_loop tree false (url_of first second more info rest ∷ argv)
        ≡ (((first ∷ second ∷ more) ++ codes "://") ++ (redacted ++ (b'@' ∷ rest)))
          ∷ scrub_loop tree false argv
  scrub_loop-Url first second more info rest argv url =
      let written = scrub_path-Url first second more info rest url in
      scrub_loop-plain (url_of first second more info rest) argv (
        ap secret_flag written
        ∙ secret_flag-Url first (second ∷ (more ++ (b':' ∷ b'/' ∷ b'/' ∷ (info ++ (b'@' ∷ rest)))))
            url.letter)
      ∙ ap (λ s. s ∷ scrub_loop tree false argv)
          (ap scrub_url_userinfo written ∙ scrub_url_userinfo-Url first second more info rest url)

  scrub_loop-same :
      (arg : Text) (xs ys : List Text)
      → alone (scrub_path tree arg) ≡ false
      → scrub_loop tree false xs ≡ scrub_loop tree false ys
      → scrub_loop tree false (arg ∷ xs) ≡ scrub_loop tree false (arg ∷ ys)
  unfolding scrub_loop
  scrub_loop-same arg xs ys other e = elim (Option-cases (secret_flag (scrub_path tree arg))) [
    | inl absent ↦ rw absent (ap (λ s. scrub_url_userinfo (scrub_path tree arg) ∷ s) e)
    | inr (joined name, found) ↦
        rw found (ap (λ s. (codes "--" ++ (name ++ (b'=' ∷ redacted))) ∷ s) e)
    | inr (bare name, found) ↦
        absurd (false_ne_true (sym other ∙ secret_flag-bare (scrub_path tree arg) name found))
  ]

  scrub_loop-Alike :
      {xs ys : List Text}
      → ((v w : Text) → OneLine v → in_tree tree v ≡ some w → OneLine w)
      → Alike xs ys
      → scrub_loop tree false xs ≡ scrub_loop tree false ys
  scrub_loop-Alike keeps done = refl
  scrub_loop-Alike keeps (next_value {xs} {ys} a b name secret rest) =
      let shows = ap secret_flag (scrub_path-bare name secret) ∙ bare_flag name secret in
      scrub_loop-bare (codes "--" ++ name) name a xs shows
      ∙ ap (λ s. scrub_path tree (codes "--" ++ name) ∷ redacted ∷ s) (scrub_loop-Alike keeps rest)
      ∙ sym (scrub_loop-bare (codes "--" ++ name) name b ys shows)
  scrub_loop-Alike keeps (joined_value {xs} {ys} a b name secret short other rest) =
      scrub_loop-joined (codes "--" ++ (name ++ (b'=' ∷ a))) name xs
        (scrub_path-joined name a secret short keeps)
      ∙ ap (λ s. (codes "--" ++ (name ++ (b'=' ∷ redacted))) ∷ s) (scrub_loop-Alike keeps rest)
      ∙ sym (
          scrub_loop-joined (codes "--" ++ (name ++ (b'=' ∷ b))) name ys
            (scrub_path-joined name b secret other keeps))
  scrub_loop-Alike keeps (userinfo {xs} {ys} first second more a b rest url other alike) =
      scrub_loop-Url first second more a rest xs url
      ∙ ap (λ s. (((first ∷ second ∷ more) ++ codes "://") ++ (redacted ++ (b'@' ∷ rest))) ∷ s)
          (scrub_loop-Alike keeps alike)
      ∙ sym (scrub_loop-Url first second more b rest ys other)
  scrub_loop-Alike keeps (same {xs} {ys} a other rest) =
      scrub_loop-same a xs ys other (scrub_loop-Alike keeps rest)

  -- Two argument lists that differ only in the value after `--token`, `--password` or `--service`,
  -- in the value of one line joined to one of these by `=`, or in the userinfo of a URL of one line
  -- whose scheme has two characters or more, are scrubbed to one list; each other argument is
  -- written as none of these flags alone, and a path of one line is written on one line.
  pub scrub-Alike :
      (xs ys : List Text)
      → ((v w : Text) → OneLine v → in_tree tree v ≡ some w → OneLine w)
      → Alike xs ys
      → scrub tree xs ≡ scrub tree ys
  unfolding scrub
  scrub-Alike xs ys keeps alike = scrub_loop-Alike keeps alike
