-- ===== src/Memory/Scrub/Urls.antt =====
-- URLs with userinfo, under `ArgvScrubber` of tree/memory/ledger_store.py.
use complex_git_sync.Prelude.{
  ℕ, ◌≡◌, refl, ap, Bool, true, false, none, some, [], ◌∷◌, ◌++◌, ◌==◌, arith, if◌then◌else◌, All,
  is_empty, Text, codes, after_prefix,
}
use complex_git_sync.Memory.Scrub.{
  span, userinfo_and_rest, is_letter, is_scheme_char, is_userinfo_char, url_match,
  scrub_url_userinfo, redacted, secret_flag, partition_eq, split_flag, is_absolute,
}
use complex_git_sync.Memory.Scrub.Flags.{OneLine, line_rest-OneLine}

-- scheme://userinfo@rest, with a scheme of at least two characters
pub record Url (first second : ℕ) (more info rest : Text) : Type 0 where
  pub letter : is_letter first ≡ true
  pub second_char : is_scheme_char second ≡ true
  pub scheme_chars : All (λ c. is_scheme_char c ≡ true) more
  pub info_some : is_empty info ≡ false
  pub info_chars : All (λ c. is_userinfo_char c ≡ true) info
  pub rest_line : OneLine rest

abbrev pub url_of : ℕ → ℕ → Text → Text → Text → Text
url_of first second more info rest =
    first ∷ second ∷ (more ++ (b':' ∷ b'/' ∷ b'/' ∷ (info ++ (b'@' ∷ rest))))

span-stop :
    (test : ℕ → Bool) (front : Text) (stop : ℕ) (rest : Text)
    → All (λ c. test c ≡ true) front
    → test stop ≡ false
    → span test (front ++ stop ∷ rest) ≡ (front, stop ∷ rest)
unfolding span
span-stop test [] stop rest h k = rw (k) refl
span-stop test (c ∷ front) stop rest h k = rw (h.0, span-stop test front stop rest h.1 k) refl

userinfo_and_rest-Url :
    (info rest : Text)
    → is_empty info ≡ false
    → All (λ c. is_userinfo_char c ≡ true) info
    → OneLine rest
    → userinfo_and_rest (info ++ (b'@' ∷ rest)) ≡ some (info, rest)
unfolding userinfo_and_rest is_userinfo_char
userinfo_and_rest-Url info rest full chars line =
    let stops = span-stop is_userinfo_char info b'@' rest chars refl in
    rw (stops, full, line_rest-OneLine rest line) (rw stops refl)

letter_no_dash : (c : ℕ) → is_letter c ≡ true → (b'-' == c) ≡ false
unfolding is_letter
letter_no_dash c e = ground arith

letter_no_slash : (c : ℕ) → is_letter c ≡ true → (c == b'/') ≡ false
unfolding is_letter
letter_no_slash c e = ground arith

scheme_no_colon : (c : ℕ) → is_scheme_char c ≡ true → (c == b':') ≡ false
unfolding is_scheme_char is_letter
scheme_no_colon c e = ground arith

url_match-Url :
    (first second : ℕ) (more info rest : Text)
    → Url first second more info rest
    → url_match (url_of first second more info rest)
      ≡ some ((first ∷ second ∷ more) ++ codes "://", info, rest)
unfolding url_match after_prefix is_scheme_char is_letter
url_match-Url first second more info rest url =
    let stops =
      span-stop is_scheme_char (second ∷ more) b':' (b'/' ∷ b'/' ∷ (info ++ (b'@' ∷ rest)))
        (url.second_char, url.scheme_chars) refl in
    rw
      (
        stops,
        url.letter,
        userinfo_and_rest-Url info rest url.info_some url.info_chars url.rest_line,
      )
      (rw stops refl)

pub secret_flag-Url : (c : ℕ) (text : Text) → is_letter c ≡ true → secret_flag (c ∷ text) ≡ none
unfolding secret_flag after_prefix
secret_flag-Url c text e = rw (secret_flag, after_prefix, letter_no_dash c e) refl

pub scrub_url_userinfo-Url :
    (first second : ℕ) (more info rest : Text)
    → Url first second more info rest
    → scrub_url_userinfo (url_of first second more info rest)
      ≡ ((first ∷ second ∷ more) ++ codes "://") ++ (redacted ++ (b'@' ∷ rest))
unfolding scrub_url_userinfo
scrub_url_userinfo-Url first second more info rest url =
    rw (scrub_url_userinfo, url_match-Url first second more info rest url) refl

pub is_absolute-Url :
    (first second : ℕ) (more info rest : Text)
    → is_letter first ≡ true
    → is_scheme_char second ≡ true
    → is_absolute (url_of first second more info rest) ≡ false
unfolding is_absolute
is_absolute-Url first second [] info rest l s =
    rw (letter_no_slash first l, scheme_no_colon second s) refl
is_absolute-Url first second (c ∷ more) info rest l s =
    rw (letter_no_slash first l, scheme_no_colon second s) refl

no_flag : (c : ℕ) (text : Text) → is_letter c ≡ true → after_prefix (codes "--") (c ∷ text) ≡ none
unfolding after_prefix
no_flag c text l = rw (letter_no_dash c l) refl

pub split_flag-letter :
    (c : ℕ) (text : Text) → is_letter c ≡ true → split_flag (c ∷ text) ≡ ([], c ∷ text)
unfolding split_flag
split_flag-letter c text l =
    ap
      (λ o.
        if (elim o [ none ↦ false | some tail ↦ true ])
        then elim (partition_eq (c ∷ text)) [
          | none ↦ ([], c ∷ text)
          | some (flag, value) ↦ (flag ++ (b'=' ∷ []), value)
        ]
        else ([], c ∷ text))
      (no_flag c text l)
