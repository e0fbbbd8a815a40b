-- ===== src/Lib.antt =====
-- ComplexGitSync: the hash-chained memory of a tree of Git repositories, and its Merkle hashes.
--
-- A command that changes the tree appends an entry to a ledger. The entry's hash covers its fields
-- and the hash of the entry before it; `ChainVerifier` recomputes all of them. An entry names the
-- rows that it wrote to a commit log by their digest. The repositories of one State are the leaves
-- of a Merkle tree, and the registrations of Operating Spaces are those of a global tree; an
-- inclusion proof is made over either tree and is checked with no more than its root and its size.
-- The registrations that are accepted are covered by a chain of checkpoints. A command over the tree
-- walks the registry of repositories, leaves first or roots first, asks which branch each of them
-- follows, and stops at the first that fails, with a report.
--
-- Merkle: src/ComplexGitSync/merkle/merkle_root.py. Merkle/Json has `canonical_json` and in
--   Json/Reordered the values that differ in the order of their keys, Merkle/Hex
--   the hexadecimal digits, Merkle/Root the hashes of one payload and the order of the leaves,
--   Merkle/Tree `_inner`, `_subtree`, `_path` and the roots, Merkle/Proof the two proofs and `verify`.
-- Memory: src/ComplexGitSync/tree/memory. Memory/Moment has the recorded time and Memory/Entry the
--   rest of ledger_entry.py; Memory/Verifier is integrity.py; Memory/Scrub is the `ArgvScrubber` of
--   ledger_store.py, Memory/Store its names and its payloads, Memory/Ledger its reads and writes;
--   Memory/CommitLog has the rows, the digests and the queries of commit_log.py.
-- Omniscience: src/ComplexGitSync/omniscience. Omniscience/Record is omniscience_record.py,
--   Omniscience/Observation is omniscience_observation.py and Omniscience/Completeness is
--   omniscience_completeness.py; Omniscience/Checkpoints is global_index.py and the chain and `build`
--   of omniscience_checkpoints.py, with the dictionaries of records in Checkpoints/Dictionary and what
--   an extension covers in Checkpoints/Sticky.
-- Repo: the records, flags and scopes of src/ComplexGitSync/git_repo/git_repo.py; Repo/Url is its
--   `convert_remote_url_protocol`. Branch: git_repo/git_branch.py, with Branch/Names on the names of
--   private branches, Branch/Twin on those of twins, Branch/Chain on the chains of fallbacks.
-- Tree: the registry and its states of src/ComplexGitSync/tree/git_tree.py. Tree/Propagate is
--   `propagate_privacy`, Tree/Walk the walks in both orders, Tree/Branches is tree/git_tree_branch.py
--   and `MountGuard.owner` of tree/mount_guard.py. Tree/Cycles is the graph of the paths and the search
--   for its strongly connected components (Run, Pop, Connect and Partition follow its state),
--   Cycles/Anchor and Cycles/Compatible the choices of `fix_circularities`, Cycles/Fix the rest of it,
--   with Rules, Keep, Removal, Duplicates and Fixed on what it leaves.
-- Operations: src/ComplexGitSync/tree/operations. Operations/Sweep is partial_failure.py,
--   Operations/Push is push.py with the helpers that it takes from restart.py and preflight.py,
--   Operations/Push/Release is its freeze_release_tree.
-- Prelude: texts, Boolean tests, lists, Python's `sorted`, a result type. Tests: concrete inputs.
--
-- Values. A `str` is the list of its code points, all of them Unicode scalar values, and `bytes` the
-- list of its bytes. The integers of a JSON value are those from 0 on, since the program hashes no
-- other. A dictionary is a list of members, a directory a list of named files. An exception is a
-- constructor of an error type beside the result. `\d` in a pattern stands for the ASCII digits.
--
-- Parameters. SHA-256 (`sha256`) belongs to the standard library's hashlib; no theorem says that it
-- has no collisions, they give the collision instead. The TOML codec (`Toml`) belongs to tomli_w and
-- tomllib: what is dumped of a table that TOML can hold, so one with no null, is read back, and bytes
-- that are not UTF-8 or not TOML are two failures. The instant comes from the injected clock.
-- `PathResolver.against_tree`, which looks at symbolic links on the disk, is an argument of
-- `scrub`; so is the test of a moved asset of
-- `check_relocations`. Random tokens for names of temporary files are arguments. Git is an interface
-- over an abstract state (`GitOperations`), as git_repo/git_runner.py declares it; what the remotes
-- answer for a memory's commit, `urlsplit` and the canonical form of a project's name are arguments.
--
-- Fuel. `subtree` and `path` recur on halves of a list with its length as fuel, which is enough
-- since both halves are shorter: `Merkle.Tree.Rfc` has the equations without fuel. `split_at` takes
-- the size as fuel for its doubling, `strip` the index for its shifts, `padded` six more than the
-- number. `walk_stack` takes the number of entries as fuel, which `Tree.Walk.Order` shows to be
-- enough; `resolve` and `owner_within` take one more, which is enough where the parents form no cycle,
-- since they go from an entry to its parent: `Tree.Propagate.Privacy`, `Tree.Branches.Owner`. The
-- nested calls of `strong_connect` take the number of nodes and targets, since each numbers one more:
-- `Tree.Cycles.Connect`.
--
-- Not modelled: permission bits, fsync and crashes between two file operations; integers below 0;
-- `from_dict` of a registration and of an observation, and the patterns that sort what Git printed;
-- the preflight checks before a push; the tip of the register that a tree remembers; a checkpoint with
-- other fields than the four of a body; a `build` that stops at a name that is refused; the files of
-- the commit logs and the appends to them; the limit on
-- Python's recursion; topological_sort and the identifiers of repositories; and the rest of the
-- program: the command line, Git processes, the documents of a tree, the other operations over a
-- tree, the Operating Space.
pub mod Prelude
pub mod Merkle
pub mod Memory
pub mod Omniscience
pub mod Repo
pub mod Branch
pub mod Tree
pub mod Operations
pub mod Tests
