-- ===== src/Tests/Branch.antt =====
-- The theorems on branches and addresses, at concrete inputs.
use complex_git_sync.Prelude.{◌≡◌, refl, false, some, ◌∷◌, ◌++◌, Text, codes, is_white, strip_white}
use complex_git_sync.Repo.{ssh, https}
use complex_git_sync.Repo.Url.{
  SplitUrl, has_char, word, line, ssh_match, git_suffix, without_suffix, strip_slash,
  convert_remote_url_protocol,
}
use complex_git_sync.Repo.Url.Convert.{
  convert_remote_url_protocol-ssh, convert_remote_url_protocol-user_info,
}
use complex_git_sync.Branch.{main_branch, twin_branch_owner, private_local_branch, has_separator}
use complex_git_sync.Branch.Names.{private_local_branch_inj, private_local_branch-twin}
use complex_git_sync.Tests.Samples.{garden}

private_local_branch_inj_example : (garden ≡ garden) × (codes "dev" ≡ codes "dev")
unfolding has_separator
private_local_branch_inj_example =
    private_local_branch_inj garden garden (codes "dev") (codes "dev") false (some (codes "park"))
      refl refl refl

private_local_branch-twin_example :
    (twin_branch_owner ≡ twin_branch_owner) × (garden ≡ garden) × (main_branch ≡ main_branch)
unfolding has_separator private_local_branch
private_local_branch-twin_example =
    private_local_branch-twin garden twin_branch_owner main_branch garden refl refl refl

-- `urlsplit` of the one address that is split here.
abbrev split_garden : Text → SplitUrl
split_garden url = record {
  scheme = codes "https";
  netloc = codes "host";
  path = codes "/ann/garden";
}

convert_remote_url_protocol-ssh_example :
    (web : Text) × (convert_remote_url_protocol split_garden (codes "git@host:ann/garden.git") https
      ≡ some web)
    × (convert_remote_url_protocol split_garden web ssh
        ≡ some (codes "git@" ++ codes "host" ++ b':' ∷ codes "ann/garden" ++ git_suffix))
    × (convert_remote_url_protocol split_garden web https ≡ some web)
unfolding ssh_match without_suffix strip_white has_char strip_slash
convert_remote_url_protocol-ssh_example =
    convert_remote_url_protocol-ssh split_garden (codes "git@host:ann/garden.git") (codes "host")
      (codes "ann/garden") refl refl refl refl refl refl

convert_remote_url_protocol-user_info_example :
    convert_remote_url_protocol split_garden
      (codes "https://"
        ++ (codes "ann" ++ b'@' ∷ (codes "host" ++ b':' ∷ codes "8080/garden"))
        ++ git_suffix)
      https
    ≡ some (codes "https://" ++ codes "host" ++ b'/' ∷ codes "8080/garden" ++ git_suffix)
unfolding has_char is_white word line
convert_remote_url_protocol-user_info_example =
    convert_remote_url_protocol-user_info split_garden (codes "ann") (codes "host")
      (codes "8080/garden") refl refl refl refl refl
