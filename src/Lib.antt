-- ===== src/Lib.antt =====
-- Noah Code is a terminal coding agent. The model of a language asks for reads, edits and shell
-- commands, and the program decides which of them run, which wait for the user, and which are
-- refused. This library models the parts of the program that make such decisions and keep the
-- state of a session in bounds.
--
-- Parts, and the files that model them (source paths are under src/noah_code):
--   permissions.py, config.py (rules) and approvals.py (remembered rules): Permissions
--     Types: categories, rules, decisions, the engine's state
--     Policy/Patterns, Policy/Flags: the regular expressions and the tables of flags
--     Secrets, SecretTokens: is_secret_path, _is_secret_shell_token and the globs of secrets
--     Shell: quotes, pipelines, redirections, compound commands, ambiguous expansions
--     Git, ReadOnly, External: _is_readonly_git, is_readonly_command, _command_has_external_path
--     Wrappers, Interpreters: _effective_shell_tokens, _contains_executing_interpreter, _is_env_dump
--     Gates: _hard_bash_deny, _elevated_bash_ask (its test) and _plan_mode_gate
--     Engine: PermissionEngine.decide, cut where _decide has its steps: hard_deny, plan_deny,
--       matching, verdict_of, bump_read_only, auto_approved, apply_elevated_floor
--     SessionRules: snapshot_session_rules and load_session_rules
--     Defaults: DEFAULT_PERMISSION_RULES and an engine with them
--     Broker: the rule that a choice of SESSION adds; Broker/Asking: require, _ask and _resolve
--   steer.py: Steer, the queue of prompts that wait for the turn to end
--   budget.py: Budget, the caps on tokens, cost and time
--   verification.py: Checks, the ledger of checks that shows whether work is complete
--     Label: check_label; Ledger: begin, finish and snapshot; Blockers: completion_blockers
--   snapshots.py: Journal, the edits of each turn, for undo and redo
--     Turns: the calls of SnapshotJournal, on a map from paths to files (Files); Calls and Recorded:
--       turns as their callers record them; Rollback: the loops of writes that are taken back
--   runtime_state.py: Store, the tables of the session's database as lists of rows
--     Events, Inbox, Effects, Interactions, Runs, Jobs, State, FileOperations: the calls on each
--     History, Queue, Once, Answers, Chronology, Recovery: what the sequences of these calls lead to
--   tools/diff_tools.py: Diff
--     Parse, Sections: parse_unified_diff, its two loops as one pass over the lines
--     Locate: _locate; Apply: _split_body and materialize_change
--   tool_output.py: Output, the part of a long output that is shown, and the store of the whole
--   tools/workspace_tools.py: Edits, the two ways in which replace changes a file's text, and
--     Patch, apply_patch (its checks) and its transaction and rollback (Patch/Commit), as a list of
--     steps of which any may fail, and apply_unified_diff (Patch/Unified), which makes a patch of a diff
--     Guarded, Order: what the transaction may rely on; UnderWay, Restored, Discarded, Steps, Failing:
--     what its rollback restores; Completed, Applied: what it does where no step fails
--   teams.py and tools/task_tools.py: Teams, the workflows, the phases and the prompts of a team;
--     Children, the child sessions in the background, and the records of the runs that a call waits for
--     (Children/Foreground)
--   usage.py: Usage, the totals of calls, tokens and outputs
--   project_notes.py: Notes, the memory of a project
--   permission_modes.py and tools/plan_tools.py: Modes, the flags of a mode, and the switches between
--     plan and build that the model asks for
-- The tools record each edit in the journal and in the table of file operations, so that undo and the
-- recovery after a crash can take it back; the queue of prompts is kept in the inbox.
-- The engine is asked for each operation. Where it answers ask, the broker asks the user and may add a
-- session rule to the engine, which the next decision reads. Queue and guard hold a lock in each
-- method, so that concurrent use is a sequence of calls.
--
-- Python holds what the source uses of its language and standard library: texts as lists of
-- character codes (case folding and blanks for ASCII), shlex, fnmatch, PurePosixPath, and regular
-- expressions with a matcher by structural recursion. Prelude holds the shared names and lemmas.
--
-- Fuel: is_readonly_command calls itself on the segments of a pipeline, each shorter than the command,
-- so that its length is enough; _effective_shell_tokens goes on at suffixes and at the words of a
-- split text, which have together fewer characters, so that the size of the tokens is enough.
-- Floats, clock readings and the texts of budget errors are an argument (Budget.Floats), as are what
-- pydantic makes of a saved rule, the fingerprint of the workspace, and the redaction of texts.
--
-- A write that raises an error and a process that stops are an index into the loop of writes, and the
-- rollbacks have indices of their own: `again` for undo and redo, RollbackFaults for a patch; uuids,
-- hashes, encodings and JSON texts are arguments. Times are left out, but for the order of file
-- operations, of runs and of jobs. A file system holds regular files.
--
-- A patch is a list of steps, so that a failure is the number of a step; what the steps read around
-- them (the hash, the uuids, the time) is Patch.Commit.PatchEnv, and what the checks read (the
-- authorization of a path, the codec, the Python compiler) is Patch.PatchInputs. What the runner makes
-- of an agent and its prompt is an argument of the teams, and the steps of the children's jobs come in
-- any order, as do those of the runs that a call waits for. How a job ends is an argument of its step and of
-- close, since an agent may have ended before the cancellation reaches it.
--
-- Not modelled: the table of pending requests of the approval broker, the fingerprint of the workspace,
-- the saving of the undo journal, directories, temporary files and symbolic links, SQLite's own
-- failures, signals to processes, worktrees and hooks, the host's event loop, the network clients, the
-- tools but for diffs, edits, patches and delegated agents, and the user interface. They run on the
-- operating system, on an event loop or on packages outside the repository.

pub mod Prelude
pub mod Python
pub mod Permissions
pub mod Steer
pub mod Budget
pub mod Checks
pub mod Files
pub mod Journal
pub mod Store
pub mod Diff
pub mod Output
pub mod Edits
pub mod Patch
pub mod Teams
pub mod Usage
pub mod Children
pub mod Notes
pub mod Modes
