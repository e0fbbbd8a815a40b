-- ===== src/Tests/Memory.antt =====
-- The theorems on tree/memory, at small histories, directories and argument lists.
use complex_git_sync.Prelude.{
  ◌≡◌, refl, ap, ◌≢◌, ◌↔◌, ◌⊎◌, true, false, none, List, [], ◌∷◌, arith, All, cons_head, cons_tail,
  codes, text_lt,
}
use complex_git_sync.Merkle.Root.{genesis_prev}
use complex_git_sync.Memory.Moment.{Moment, IsMoment, iso_utc, earlier, iso_utc-earlier}
use complex_git_sync.Memory.Entry.{LedgerEntry, Operation}
use complex_git_sync.Memory.Entry.Binding.{SameFields}
use complex_git_sync.Memory.Entry.Hash.{Collision, entry_bytes, compute_hash-SameFields}
use complex_git_sync.Memory.Verifier.{
  time_regression, already_broken, orphan_state, Found, verified, resolve_state, check_hash_chain,
  verify_chain,
}
use complex_git_sync.Memory.Verifier.Verdict.{resolve_state-verified}
use complex_git_sync.Memory.Verifier.Chain.{
  Linked, check_hash_chain-Linked, AllBroken, check_hash_chain-broken, SameEntries, CollidesAt,
}
use complex_git_sync.Memory.Verifier.FoldFix.{written_before_fold_fix}
use complex_git_sync.Memory.Verifier.Fresh.{chain_from, verify_chain-chain_from}
use complex_git_sync.Memory.Verifier.Sound.{verify_chain-pinned}
use complex_git_sync.Tests.{length_hash}

abbrev noon : Moment
noon = record { year = 2026; month = 3; day = 1; hour = 12; minute = 0; second = 0 }

abbrev later : Moment
later = record { year = 2026; month = 3; day = 1; hour = 12; minute = 0; second = 7 }

noon-IsMoment : IsMoment noon
noon-IsMoment = record {
  year_fits = omega arith;
  month_fits = omega arith;
  day_fits = omega arith;
  hour_fits = omega arith;
  minute_fits = omega arith;
  second_fits = omega arith;
}

later-IsMoment : IsMoment later
later-IsMoment = record {
  year_fits = omega arith;
  month_fits = omega arith;
  day_fits = omega arith;
  hour_fits = omega arith;
  minute_fits = omega arith;
  second_fits = omega arith;
}

iso_utc-earlier_example : text_lt (iso_utc noon) (iso_utc later) ≡ earlier noon later
iso_utc-earlier_example = iso_utc-earlier noon later noon-IsMoment later-IsMoment

abbrev push : Operation
push = record {
  command = codes "push";
  argv = codes "cgitsync" ∷ codes "push" ∷ [];
  state_id = codes "state";
  state_dir = codes "dir";
  outcome = codes "success";
  toolchain = (codes "git", codes "2.43") ∷ [];
  commit_log = [];
  environment = [];
  release = [];
  relocations = [];
}

abbrev history : List LedgerEntry
history = chain_from length_hash none ((push, noon) ∷ (push, later) ∷ [])

not_back : earlier later noon ≡ false
unfolding earlier
not_back = refl

verify_chain-chain_from_example :
    verify_chain length_hash history ≡ record { findings = []; state = verified }
verify_chain-chain_from_example =
    verify_chain-chain_from length_hash push noon ((push, later) ∷ [])
      (noon-IsMoment, (later-IsMoment, not_back, tt))

history-verified : (verify_chain length_hash history).state ≡ verified
history-verified =
    ap (λ r. r.state)
      (verify_chain-chain_from length_hash push noon ((push, later) ∷ [])
        (noon-IsMoment, (later-IsMoment, not_back, tt)))

verify_chain-pinned_example :
    SameEntries length_hash history history ⊎ CollidesAt length_hash history history
verify_chain-pinned_example =
    verify_chain-pinned length_hash history history history-verified history-verified refl refl

check_hash_chain-Linked_example :
    (check_hash_chain length_hash genesis_prev false history ≡ [])
    ↔ Linked length_hash genesis_prev history
check_hash_chain-Linked_example = check_hash_chain-Linked length_hash genesis_prev history

abbrev stray : LedgerEntry
stray = record {
  fields = record {
    seq = 1;
    prev = codes "stray";
    recorded_at = iso_utc noon;
    command = codes "push";
    argv = [];
    state_id = codes "state";
    state_dir = codes "dir";
    outcome = codes "success";
    toolchain = [];
    commit_log = [];
    environment = [];
    release = [];
    relocations = [];
  };
  entry_hash = codes "none";
}

stray-prev : codes "stray" ≢ genesis_prev
stray-prev e = absurd (omega (arith, cons_head (cons_tail e)))

check_hash_chain-broken_example :
    AllBroken length_hash
      (stray ∷ history)
      (check_hash_chain length_hash genesis_prev false (stray ∷ history))
check_hash_chain-broken_example =
    check_hash_chain-broken length_hash genesis_prev [] stray history stray-prev

compute_hash-SameFields_example :
    SameFields stray.fields stray.fields
    ⊎ Collision length_hash (entry_bytes stray.fields) (entry_bytes stray.fields)
compute_hash-SameFields_example = compute_hash-SameFields length_hash stray.fields stray.fields refl

abbrev some_findings : List Found
some_findings = (3, orphan_state, already_broken) ∷ (4, time_regression, already_broken) ∷ []

resolve_state-verified_example :
    (resolve_state some_findings ≡ verified) ↔ All (λ f. f.1 ≡ orphan_state) some_findings
resolve_state-verified_example = resolve_state-verified some_findings

old_version : written_before_fold_fix (codes " 0002.88") ≡ true
unfolding written_before_fold_fix text_lt
old_version = refl

short_version : written_before_fold_fix (codes "6.8") ≡ true
unfolding written_before_fold_fix text_lt
short_version = refl

fixed_version : written_before_fold_fix (codes "6.8.1.dev0") ≡ false
unfolding written_before_fold_fix text_lt
fixed_version = refl

nameless_version : written_before_fold_fix (codes "dev") ≡ false
unfolding written_before_fold_fix text_lt
nameless_version = refl
