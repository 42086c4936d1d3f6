-- ===== src/Lib.antt =====
-- Verification of the backend of start-os, the operating system of a personal server that installs
-- services as packages, watches them and keeps their dependencies consistent.
--
-- The parts of the program and the files that model them (paths from the repository's root):
--
-- - S9pk: the package format. `S9pk/Header.antt` is backend/src/s9pk/header.rs (`Header`,
--   `TableOfContents`, `FileSection` with `serialize` and `deserialize`; `serialize_toc` and
--   `deserialize_toc` are the methods of `TableOfContents`), `S9pk/Pack.antt` is `S9pkPacker::pack`
--   of backend/src/s9pk/builder.rs, and `S9pk/Reader.antt` is `S9pkReader` of
--   backend/src/s9pk/reader.rs. A reader is the bytes to come, a file is its bytes and a position.
--   The loop over the entries of a table of contents takes as fuel one more than the bytes that are
--   left, and each entry takes at least one byte. `S9pk/Crypto.antt` says what is assumed of
--   ed25519 and SHA-512, which stand in other crates.
-- - Status: `MainStatus` of backend/src/status/mod.rs.
-- - Dependencies: backend/src/dependencies.rs. `Dependencies/Errors.antt` has `DependencyError`,
--   `cmp_priority` and `merge_with`; `Dependencies/Heal.antt` has `try_heal`, one function for each
--   error, and `satisfied`; `Dependencies/HealAll` has `heal_transitive` and
--   `heal_all_dependents_transitive`; `Dependencies/Break` has `break_transitive` and
--   `break_all_dependents_transitive`, where `record_error` is the part of a call that runs in its
--   transaction, and `break_step` is its body with the recursive call as an argument. The recursion
--   takes fuel: a call goes on only where it fills, or clears, the slot of a package and a
--   dependency, so the number of slots bounds it. `Dependencies/Store.antt` says what is assumed
--   of the database patch-db (a submodule), of the crate emver, and of the procedures of packages.
-- - Version: backend/src/version. `Version/Chain.antt` is the trait `VersionT` with the versions of
--   v0_*.rs, each on its `Previous`; `Version/Migrate.antt` has `commit`, `migrate_to`,
--   `migrate_from_unchecked` and `rollback_to_unchecked` of mod.rs, and `Version/Init.antt` the enum
--   of versions and `init`. The recursions take fuel, and the number of versions is enough. The
--   bodies of the migrations that do something are parameters, and so are the crate emver and the
--   database (`Version/Store.antt`).
-- - Config: `Config/Json.antt` is what the configurations use of the crate serde_json: `end` and
--   `field` build the fields of an object in the order of their insertion. Of
--   backend/src/config/util.rs, `Config/CharSet.antt` is `CharSet` with its parser and its printer,
--   `Config/Merge.antt` is `MergeWith`, `Config/NumRange.antt` is `NumRange`, and
--   `Config/UniqueBy.antt` is `UniqueBy`. `Config/Spec` is backend/src/config/spec.rs, with the
--   errors of backend/src/config/mod.rs: `Syntax` has the types (their wrappers `WithDescription`,
--   `WithDefault` and `WithNullable` are arguments of what they wrap), and `Matches`, `Validate`,
--   `Pointers` and `Eq` have the methods of those names for every kind of specification. A sum over
--   the methods of a trait is a mutual block, and the loop over the keys of an object is one of its
--   members. `Text` generates the strings: the crate rand is a parameter (`Config/CharSet/Gen.antt`),
--   and the time until the timeout is the number of candidates that are tried. `Gen` generates whole
--   configurations; its loop on a list of objects takes the lower bound of the list's range as fuel,
--   since each round adds an item. Numbers, regular expressions and JSON paths are a parameter (`Crates`).
-- - Manager: `Manager/Health.antt` is `check` of backend/src/manager/health.rs, in two parts: what it
--   reads, and `commit_health` for what it writes. The flag `should_commit` is an argument, and the
--   run of the checks is a parameter. `Manager/Sync.antt` is what a manager does to its shared state
--   (`start`, `stop`, `pause`, `resume` and `send_signal` of backend/src/manager/mod.rs) and
--   `synchronize_once` of backend/src/manager/sync.rs, with the answers of Docker, and what other tasks
--   do while a call waits for it, as an argument; a call that waits is dropped when the thread leaves
--   its loop. `Manager/Sync/Loop.antt` has `manager_thread_loop` in the
--   pieces between which others run (`Thread` says where it stands), and the steps of a service as a
--   relation; a call of the synchronizer is one step,
--   in which the thread may move, and an exit begin, wherever the call waits.
-- - Control: `Control.antt` has the commands of backend/src/control.rs, on the database of
--   `Dependencies`: `start_in` and `set_stopping` are the transactions of `start` and `stop_common`.
--   They take the fuel of the recursions they call.
-- - Rules: the rules on configurations of system-images/compat/src/config. A rule is modelled from the
--   tree that the parser pest builds of it (`Rules/Syntax.antt` is rule_parser.pest; pest and its
--   precedence climbers are external), and a compiled closure is a function of its arguments. Of
--   rules.rs, `Rules/VarRes.antt` is `VarRes`, `Rules/Text.antt` has the strings, `Rules/Elements.antt`
--   the loops over items, `Rules/Eval.antt` the evaluation (`compile_var` to `compile_value_expr`, with `compile_num` and the closures of the
--   comparisons in their callers), `Rules/Assign.antt` is `compile_var_mut`, where a `&mut` is what
--   stands in a place and a function that replaces it, `Rules/Actions.antt` has the changes, and
--   `Rules/Suggest.antt` the suggestions. A panic is an error of its own; one at a literal's parse is
--   raised where the literal is evaluated, and a `usize` has 64 bits. `Rules/Configure.antt` is mod.rs. Floating-point numbers
--   are a parameter.
--
-- `Common` holds the vocabulary: tests, lists, results and ordered maps over the native numbers.
--
-- Not modelled: what only moves data in and out, or runs other programs (the installation of packages,
-- containers, backups, disks, sockets and the network, the file system beyond a file's content,
-- logging, the server's own life cycle), and so rests on what they answer; the
-- texts of messages; and the locks that an operation takes on the database: an operation is a
-- function of the database that it is given.
pub mod Common
pub mod Config
pub mod Control
pub mod Dependencies
pub mod Manager
pub mod Rules
pub mod S9pk
pub mod Status
pub mod Version
