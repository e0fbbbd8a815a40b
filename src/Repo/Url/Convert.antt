-- ===== src/Repo/Url/Convert.antt =====
-- What `convert_remote_url_protocol` of git_repo/git_repo.py makes of an address.
use complex_git_sync.Repo.{AccessProtocol, ssh, https}
use mathlib.Core.List.{reverse, reverse-append, reverse-reverse}
use complex_git_sync.Prelude.{
  ℕ, ◌≡◌, refl, sym, ap, ◌∙◌, true, false, none, some, [], ◌∷◌, ◌++◌, arith, ◌==◌, if◌then◌else◌,
  ==_refl, any, is_empty, Text, codes, text_eq, is_white, strip_left, strip_white,
}
use complex_git_sync.Repo.Url.{
  cut_at, has_char, word, line, ssh_match, git_suffix, without_suffix, SplitUrl, strip_slash,
  is_ssh, convert_body, convert_remote_url_protocol,
}

cut_at-append :
    (mark : ℕ) (before after : Text)
    → has_char mark before ≡ false
    → cut_at mark (before ++ mark ∷ after) ≡ some (before, after)
unfolding cut_at has_char
cut_at-append mark [] after clear = rw (==_refl mark) refl
cut_at-append mark (c ∷ before) after clear =
    let rest : has_char mark before ≡ false = ground arith in
    let other : (c == mark) ≡ false = ground arith in
    rw (cut_at-append mark before after rest, other) refl

cut_at-none : (mark : ℕ) (text : Text) → has_char mark text ≡ false → cut_at mark text ≡ none
unfolding cut_at has_char
cut_at-none mark [] clear = refl
cut_at-none mark (c ∷ text) clear =
    let rest : has_char mark text ≡ false = ground arith in
    let other : (c == mark) ≡ false = ground arith in rw (cut_at-none mark text rest, other) refl

has_char-append :
    (mark : ℕ) (xs ys : Text)
    → has_char mark xs ≡ false
    → has_char mark ys ≡ false
    → has_char mark (xs ++ ys) ≡ false
unfolding has_char
has_char-append mark [] ys hx hy = hy
has_char-append mark (x ∷ xs) ys hx hy =
    let rest = has_char-append mark xs ys (ground arith) hy in ground arith

ssh_match-parts :
    (user host path : Text)
    → has_char b'@' user ≡ false
    → has_char b':' host ≡ false
    → word user ≡ true
    → word host ≡ true
    → line path ≡ some path
    → ssh_match (user ++ b'@' ∷ (host ++ b':' ∷ path)) ≡ some (host, path)
unfolding ssh_match
ssh_match-parts user host path at colon uw hw l =
    rw
      (
        ssh_match,
        cut_at-append b'@' user (host ++ b':' ∷ path) at,
        cut_at-append b':' host path colon,
        uw,
        hw,
        l,
      )
      refl

ssh_match-none : (body : Text) → has_char b'@' body ≡ false → ssh_match body ≡ none
unfolding ssh_match
ssh_match-none body clear = rw (ssh_match, cut_at-none b'@' body clear) refl

without_suffix-append : (text : Text) → without_suffix (text ++ git_suffix) ≡ text
unfolding without_suffix
without_suffix-append text =
    rw (without_suffix, reverse-append text git_suffix) (reverse-reverse text)

-- The white space around a text that begins with no white space and ends with ".git".
strip_white-suffix :
    (c : ℕ) (cs : Text)
    → is_white c ≡ false
    → strip_white (c ∷ cs ++ git_suffix) ≡ c ∷ cs ++ git_suffix
unfolding strip_white
strip_white-suffix c cs clear =
    let left : (xs : Text) → strip_left (c ∷ xs) ≡ c ∷ xs =
      λ xs. unfold strip_left in rw (clear) refl in
    rw (strip_white, left (cs ++ git_suffix))
      (rw (reverse-append (c ∷ cs) git_suffix) (
        unfold strip_left in
        (ap reverse (sym (reverse-append (c ∷ cs) git_suffix))
          ∙ reverse-reverse ((c ∷ cs) ++ git_suffix))))

unfoldable pub web_address : Text → Text → Text
web_address host path = codes "https://" ++ (host ++ b'/' ∷ path)

-- An address that ends with the suffix, once it is read.
convert-suffix :
    (urlsplit : Text → SplitUrl) (c : ℕ) (cs : Text) (protocol : AccessProtocol)
    → is_white c ≡ false
    → convert_remote_url_protocol urlsplit ((c ∷ cs) ++ git_suffix) protocol
      ≡ convert_body urlsplit ((c ∷ cs) ++ git_suffix) (c ∷ cs) (ssh_match (c ∷ cs)) protocol
unfolding convert_remote_url_protocol
convert-suffix urlsplit c cs protocol clear =
    ap (λ t. convert_body urlsplit t (without_suffix t) (ssh_match (without_suffix t)) protocol)
      (strip_white-suffix c cs clear)
    ∙ ap (λ t. convert_body urlsplit ((c ∷ cs) ++ git_suffix) t (ssh_match t) protocol)
        (without_suffix-append (c ∷ cs))

convert-https :
    (urlsplit : Text → SplitUrl) (rest : Text) (protocol : AccessProtocol)
    → convert_remote_url_protocol urlsplit (codes "https://" ++ rest ++ git_suffix) protocol
      ≡ convert_body urlsplit
          (codes "https://" ++ rest ++ git_suffix)
          (codes "https://" ++ rest)
          (ssh_match (codes "https://" ++ rest))
          protocol
unfolding is_white
convert-https urlsplit rest protocol =
    convert-suffix urlsplit b'h' (codes "ttps://" ++ rest) protocol refl

convert_body-web :
    (urlsplit : Text → SplitUrl) (stripped body host path : Text) (protocol : AccessProtocol)
    → is_empty host ≡ false
    → strip_slash (b'/' ∷ path) ≡ path
    → urlsplit body ≡ record { scheme = codes "https"; netloc = host; path = b'/' ∷ path }
    → convert_body urlsplit stripped body none protocol ≡ (
        if is_ssh protocol
        then some (codes "git@" ++ host ++ b':' ∷ path ++ git_suffix)
        else some stripped)
unfolding convert_body text_eq
convert_body-web urlsplit stripped body host path protocol filled slashes splits =
    rw (convert_body, splits, filled, slashes) refl

-- From SSH to HTTPS and back
pub convert_remote_url_protocol-ssh :
    (urlsplit : Text → SplitUrl) (url host path : Text)
    → ssh_match (without_suffix (strip_white url)) ≡ some (host, path)
    → has_char b'@' host ≡ false
    → has_char b'@' path ≡ false
    → is_empty host ≡ false
    → strip_slash (b'/' ∷ path) ≡ path
    → urlsplit (web_address host path)
      ≡ record { scheme = codes "https"; netloc = host; path = b'/' ∷ path }
    → (web : Text) × (convert_remote_url_protocol urlsplit url https ≡ some web)
      × (convert_remote_url_protocol urlsplit web ssh
          ≡ some (codes "git@" ++ host ++ b':' ∷ path ++ git_suffix))
      × (convert_remote_url_protocol urlsplit web https ≡ some web)
unfolding convert_remote_url_protocol web_address
convert_remote_url_protocol-ssh urlsplit url host path matched host_at path_at filled slashes
      splits =
    let clear : has_char b'@' (web_address host path) ≡ false =
      unfold has_char in has_char-append b'@' host (b'/' ∷ path) host_at path_at in
    let read : (protocol : AccessProtocol)
        → convert_remote_url_protocol urlsplit (web_address host path ++ git_suffix) protocol ≡ (
            if is_ssh protocol
            then some (codes "git@" ++ host ++ b':' ∷ path ++ git_suffix)
            else some (web_address host path ++ git_suffix)) =
      λ protocol.
        convert-https urlsplit (host ++ b'/' ∷ path) protocol
        ∙ ap
            (λ m.
              convert_body urlsplit (web_address host path ++ git_suffix) (web_address host path) m
                protocol)
            (ssh_match-none (web_address host path) clear)
        ∙ convert_body-web urlsplit _ (web_address host path) host path protocol filled slashes
            splits in
    (
      web_address host path ++ git_suffix,
      ap (λ m. convert_body urlsplit (strip_white url) (without_suffix (strip_white url)) m https)
          matched,
      read ssh,
      read https,
    )

-- An HTTPS address with a user and a port is read as an SSH address: its port becomes a directory.
pub convert_remote_url_protocol-user_info :
    (urlsplit : Text → SplitUrl) (user host path : Text)
    → has_char b'@' user ≡ false
    → any is_white user ≡ false
    → has_char b':' host ≡ false
    → word host ≡ true
    → line path ≡ some path
    → convert_remote_url_protocol urlsplit
        (codes "https://" ++ (user ++ b'@' ∷ (host ++ b':' ∷ path)) ++ git_suffix)
        https
      ≡ some (codes "https://" ++ host ++ b'/' ∷ path ++ git_suffix)
unfolding convert_body
convert_remote_url_protocol-user_info urlsplit user host path at spaced colon hw l =
    let uw : word (codes "https://" ++ user) ≡ true = unfold word in rw (spaced) refl in
    let not_at : has_char b'@' (codes "https://" ++ user) ≡ false = unfold has_char in at in
    convert-https urlsplit (user ++ b'@' ∷ (host ++ b':' ∷ path)) https
    ∙ ap
        (λ m.
          convert_body urlsplit
            (codes "https://" ++ (user ++ b'@' ∷ (host ++ b':' ∷ path)) ++ git_suffix)
            (codes "https://" ++ (user ++ b'@' ∷ (host ++ b':' ∷ path))) m https)
        (ssh_match-parts (codes "https://" ++ user) host path not_at colon uw hw l)
