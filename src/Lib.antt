-- ===== src/Lib.antt =====
-- prek: the parts of prek that decide which hooks run and in which order, what a hook is given, how
-- it is run over batches of filenames, and what the built-in fixers write.
--
-- A run selects hooks, finds or installs their environments, and then runs the projects of the
-- workspace level by level. It collects the files of the workspace, gives each to the projects
-- that own it, filters them for each hook, and runs the hooks of a project in groups of one
-- priority. A hook that is a command runs over batches of filenames that fit a command line. A
-- built-in hook runs over one file at a time.
--
-- Run (crates/prek/src/run.rs): Run.Limits has the concurrency, the length limits and
-- `Partitions::split`; Run.Partitions the iterator over batches, `next`; Run.Output
-- `HookRunOutput`; Run.Batch `run_by_batch`. A filename is its bytes. `usize` is a natural
-- number below 2 ^ 64 whose `-=` wraps around as in a release build. The limits are those of a
-- Unix build, and what the system reports (processors, sysconf, variables) is an argument.
-- Batches run at the same time, but `buffered` hands over their outputs in order, so the fold is
-- one over the list of batches. The iterator is collected before the fold, so a panic over a
-- filename that is too long comes before a failure of an earlier batch, which the code may
-- return first. It is collected on fuel, two rounds more than there are filenames: each round
-- but the first on an empty list and the last moves past at least one filename.
--
-- Hooks (crates/prek/src/hooks): Hooks.Output has `HookOutput`, Hooks.Bytes the operations on
-- byte slices; Hooks.EndOfFile, Hooks.TrailingWhitespace, Hooks.ByteOrderMarker,
-- Hooks.MixedLineEnding, Hooks.ContentsSorter and Hooks.MergeConflict have the hooks of
-- fix_end_of_file.rs, fix_trailing_whitespace.rs, fix_byte_order_marker.rs, mixed_line_ending.rs,
-- file_contents_sorter.rs and check_merge_conflict.rs in hooks/pre_commit_hooks. A file is its
-- bytes, or what its reads return, and a run of a fixer yields the bytes that it leaves. The loops
-- run on fuel, one round more than the file has bytes, since a round moves past a block, a line or
-- a line ending. What the crates `memchr` and `bstr` find is a parameter, by their documentation,
-- and `trim_end_with` on --chars one that returns the front of its slice. The byte-wide counters
-- of mixed_line_ending.rs wrap around at 2 ^ 8. The sort of the standard library is a stable
-- insertion by a key.
--
-- Filter (crates/prek/src/cli/run/filter.rs, crates/prek/src/config/pattern.rs): paths as lists
-- of components, patterns as the tests that the libraries for regular expressions and globs
-- make, Filter.Tree the tree of project paths, Filter.Index `RunFileIndex::new`, Filter.Visit the
-- visit of the files of a project.
-- A hash map of children is an association list, a hash set of files a list.
--
-- Schedule (crates/prek/src/cli/run/run.rs and diff.rs): what one hook reports (`run_hook`, with
-- `Language::run` and `requires_diff_tracking`), Schedule.Groups `PriorityGroups`,
-- Schedule.Status the verdict on a group, Schedule.Diff `DiffTracker`, Schedule.Project the loop
-- of `run_project`, Schedule.Levels the sorting of hooks, `ProjectDepthGroups`, `run_hooks` and the
-- session. The hooks of a group run at the same time; what they do to the worktree is one step, an
-- argument, as is the diff that Git takes. The projects of a level run one after the other, which is
-- one of the orders of the concurrent runs. The iterators over groups and over levels run on fuel,
-- one round more than there are hooks or projects, since a group or a level is not empty.
--
-- Install (crates/prek/src/cli/run/install.rs, with environments from crates/prek/src/hook.rs): the
-- search in the store, the partitions, and the reuse of an environment within one. What a language
-- installs, and what a hook's request for a version says of an environment, are arguments. The
-- partitions are installed one after the other, which is one of the orders of the concurrent code.
--
-- Identify (crates/prek-identify/src/lib.rs and tags.rs): Identify has `TagSet` as six words of 64
-- digits, its iterator and its reading, Identify.Tags the names of the tags, Identify.Tables the
-- tables by interpreter, extension and name, Identify.Interpreter, Identify.Shebang,
-- Identify.Text and Identify.Files what `tags_from_path` is composed of. Identify.Bits has the
-- operations on words, Identify.Refine the sets of ids that they stand for. Filter.Types is the
-- filter by types over these sets. The search for a tag runs on ten rounds, since it halves 324
-- ids; a call of `next` on seven, since it loads six words. A path is what the system says of it:
-- metadata, name, lines and content.
--
-- Selectors (crates/prek/src/cli/run/selector.rs, crates/prek/src/config/priority.rs): which
-- hooks and projects the command line and the environment select. Selectors has the matching and
-- the two prefilters that a run applies before a hook is built, Selectors.Groups `GroupFilters`,
-- Selectors.Parse the reading and showing of selectors, Selectors.Report what is said of unused
-- ones. The usage behind the mutex is a value that each call takes and returns; its sets of
-- indices are lists. Paths (crates/prek/src/fs.rs) has `clean_path`, and Paths.Text what the
-- standard library does to a text that is split at a byte or read as a path on Unix.
--
-- Not modelled: the installation of tool chains, processes, Git, the store and the terminal,
-- which are input and output; the configuration, which serde reads; errors of the file system;
-- the other built-in hooks, and the report of a run.
pub mod Prelude
pub mod Run
pub mod Hooks
pub mod Identify
pub mod Filter
pub mod Paths
pub mod Selectors
pub mod Schedule
pub mod Install
