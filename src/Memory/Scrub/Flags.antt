-- ===== src/Memory/Scrub/Flags.antt =====
-- The secret flags of `ArgvScrubber` in tree/memory/ledger_store.py, alone and joined to a value.
use complex_git_sync.Prelude.{
  ℕ, ◌≡◌, refl, ap, ◌∙◌, inl, inr, Bool, true, false, ◌||◌, Option, none, some, List, [], ◌∷◌, ◌++◌,
  ◌⊎◌, ◌==◌, if◌then◌else◌, Bool-cases, Option-cases, All, is_empty, Text, codes, text_eq,
  after_prefix, after_prefix-some, text_eq_iff, ==_iff,
}
use complex_git_sync.Memory.Scrub.{
  line_rest, SecretFlag, bare, joined, flag_tail, first_match, secret_flag, secret_flag_names,
  last_component,
}

-- A text with no line feed
abbrev pub OneLine : Text → Type 0
OneLine text = All (λ c. (c == 10) ≡ false) text

-- The flags whose value is a secret
pub data SecretName : Text → Type 0 where
  a_token : SecretName (codes "token")
  a_password : SecretName (codes "password")
  a_service : SecretName (codes "service")

pub line_rest-OneLine : (text : Text) → OneLine text → line_rest text ≡ some text
unfolding line_rest
line_rest-OneLine [] h = refl
line_rest-OneLine (c ∷ []) h = rw (h.0) refl
line_rest-OneLine (c ∷ d ∷ cs) h = rw (h.0, line_rest-OneLine (d ∷ cs) h.1) refl

tail_joined :
    (name value : Text) → OneLine value → flag_tail name (b'=' ∷ value) ≡ some (joined name)
unfolding flag_tail
tail_joined name value h = rw (line_rest-OneLine value h) refl

unfoldable shown : Option SecretFlag → Option SecretFlag
shown found = elim found [ none ↦ none | some flag ↦ some flag ]

pub joined_flag :
    (name value : Text)
    → SecretName name
    → OneLine value
    → secret_flag (codes "--" ++ (name ++ (b'=' ∷ value))) ≡ some (joined name)
unfolding secret_flag first_match after_prefix shown
joined_flag _ value a_token h = ap shown (tail_joined (codes "token") value h)
joined_flag _ value a_password h = ap shown (tail_joined (codes "password") value h)
joined_flag _ value a_service h = ap shown (tail_joined (codes "service") value h)

OneLine-snoc : (text : Text) (c : ℕ) → OneLine text → (c == 10) ≡ false → OneLine (text ++ c ∷ [])
OneLine-snoc [] c h k = (k, tt)
OneLine-snoc (d ∷ text) c h k = (h.0, OneLine-snoc text c h.1 k)

OneLine-if : (test : Bool) (a b : Text) → OneLine a → OneLine b → OneLine (if test then a else b)
OneLine-if true a b f g = f
OneLine-if false a b f g = g

pub last_component-OneLine :
    (text found current : Text)
    → OneLine found
    → OneLine current
    → OneLine text
    → OneLine (last_component found current text)
unfolding last_component
last_component-OneLine [] found current f c t = OneLine-if _ found current f c
last_component-OneLine (x ∷ text) found current f c t =
    last_component-OneLine text
      (if x == b'/'
        then (if is_empty current || text_eq current (codes ".") then found else current)
        else found)
      (if x == b'/' then [] else current ++ x ∷ [])
      (OneLine-if (x == b'/')
        (if is_empty current || text_eq current (codes ".") then found else current) found
        (OneLine-if (is_empty current || text_eq current (codes ".")) found current f c) f)
      (OneLine-if (x == b'/') [] (current ++ x ∷ []) tt (OneLine-snoc current x c t.0)) t.1

-- The two ways to write each flag alone: as it is, and before a last line feed.
unfoldable pub flags_alone : List Text → List Text
flags_alone [] = []
flags_alone (name ∷ names) =
    (codes "--" ++ name) ∷ (codes "--" ++ (name ++ 10 ∷ [])) ∷ flags_alone names

unfoldable pub listed : Text → List Text → Bool
listed text [] = false
listed text (t ∷ texts) = text_eq text t || listed text texts

-- The text is a secret flag with no value joined to it.
abbrev pub alone : Text → Bool
alone text = listed text (flags_alone (codes "token" ∷ codes "password" ∷ codes "service" ∷ []))

append_nil : (a : Text) → a ++ [] ≡ a
append_nil [] = refl
append_nil (c ∷ a) = ap (λ t. c ∷ t) (append_nil a)

tail_bare :
    (name text n : Text) → flag_tail name text ≡ some (bare n) → (text ≡ []) ⊎ (text ≡ 10 ∷ [])
unfolding flag_tail
tail_bare name [] n e = inl refl
tail_bare name (c ∷ []) n e = elim (Bool-cases (c == b'=')) [
  | inl equals ↦ cc
  | inr other ↦ elim (Bool-cases (c == 10)) [
    | inl feed ↦ inr (ap (λ x. x ∷ []) ((==_iff c 10).0 feed))
    | inr differ ↦ cc
  ]
]
tail_bare name (c ∷ d ∷ text) n e = elim (Bool-cases (c == b'=')) [
  | inl equals ↦ elim (Option-cases (line_rest (d ∷ text))) [
    | inl absent ↦ cc
    | inr (value, found) ↦ cc
  ]
  | inr other ↦ elim (Bool-cases (c == 10)) [ inl feed ↦ cc | inr differ ↦ cc ]
]

or_right : (a b c : Bool) → c ≡ true → (a || (b || c)) ≡ true
or_right true b c e = refl
or_right false true c e = refl
or_right false false c e = e

listed_first : (a b : Text) (rest : List Text) → a ≡ b → listed a (b ∷ rest) ≡ true
unfolding listed
listed_first a b rest e = rw ((text_eq_iff a b).1 e) refl

listed_second : (a b c : Text) (rest : List Text) → a ≡ c → listed a (b ∷ c ∷ rest) ≡ true
unfolding listed
listed_second a b c rest e = elim (Bool-cases (text_eq a b)) [
  | inl same ↦ rw same refl
  | inr differ ↦ rw differ (rw ((text_eq_iff a c).1 e) refl)
]

match_bare :
    (names : List Text) (text n : Text)
    → first_match names text ≡ some (bare n)
    → listed (codes "--" ++ text) (flags_alone names) ≡ true
unfolding first_match flags_alone listed
match_bare [] text n e = cc
match_bare (name ∷ names) text n e = elim (Option-cases (after_prefix name text)) [
  | inl absent ↦
      or_right (text_eq (codes "--" ++ text) (codes "--" ++ name))
        (text_eq (codes "--" ++ text) (codes "--" ++ (name ++ 10 ∷ [])))
        (listed (codes "--" ++ text) (flags_alone names)) (match_bare names text n (cc (absent, e)))
  | inr (t, shows) ↦ elim (Option-cases (flag_tail name t)) [
    | inl absent ↦
        or_right (text_eq (codes "--" ++ text) (codes "--" ++ name))
          (text_eq (codes "--" ++ text) (codes "--" ++ (name ++ 10 ∷ [])))
          (listed (codes "--" ++ text) (flags_alone names))
          (match_bare names text n (cc (shows, absent, e)))
    | inr (flag, found) ↦ elim (tail_bare name t n (cc (shows, found, e))) [
      | inl nothing ↦
          listed_first (codes "--" ++ text) (codes "--" ++ name)
            ((codes "--" ++ (name ++ 10 ∷ [])) ∷ flags_alone names)
            (ap (λ x. codes "--" ++ x)
              (after_prefix-some name text t shows ∙ ap (λ x. name ++ x) nothing ∙ append_nil name))
      | inr feed ↦
          listed_second (codes "--" ++ text) (codes "--" ++ name) (codes "--" ++ (name ++ 10 ∷ []))
            (flags_alone names)
            (ap (λ x. codes "--" ++ x)
              (after_prefix-some name text t shows ∙ ap (λ x. name ++ x) feed))
    ]
  ]
]

pub secret_flag-bare : (text n : Text) → secret_flag text ≡ some (bare n) → alone text ≡ true
unfolding secret_flag
secret_flag-bare text n e = elim (Option-cases (after_prefix (codes "--") text)) [
  | inl absent ↦ cc
  | inr (t, shows) ↦
      ap (λ x. listed x (flags_alone secret_flag_names))
        (after_prefix-some (codes "--") text t shows)
      ∙ match_bare secret_flag_names t n (cc (shows, e))
]
