-- ===== src/Lib.antt =====
-- dotvault is a daemon that runs for one user. It holds a token of HashiCorp Vault, renders
-- secrets of the user's KV subtree into local files by rules, mounts that subtree as a file
-- system, serves it to Docker as volumes, keeps SSH forwards up, and lets a web UI edit part of
-- it. This library models the parts of it that decide what is read, written and refused.
--
-- The parts and the files that model them:
--
-- KvPath: internal/kvpath, the grammar of KV paths (kvpath.go) and the policy that says which
--   paths the web UI may write (editable.go). KvPath.clean is Clean, KvPath.validate_name is
--   ValidateName; KvPath.Policy has CleanEditableRoot, NewEditPolicy and the methods of
--   EditPolicy. The loops of NewEditPolicy are collect_roots and collect_managed, sort.Strings is
--   sort_strings.
-- Sync: internal/sync, the engine. Sync.World is what a sync reads and changes: files with their
--   modes, the state store in memory and as saved. Sync.Store is the StateStore of state.go;
--   Sync.SyncRule is syncRule of engine.go, in its parts fetch, unchanged (the skip gate), plan
--   (from the handler to the merge) and commit (from MkdirAll on); Sync.RenderHash is
--   ruleRenderHash up to the digest; Sync.Cycle has runRulesLocked, RunOnce, RunKeyless,
--   syncOutcome and syncRuleByPath; Sync.Update has UpdateConfig and TriggerSync, whose channels
--   of capacity one are flags.
-- Handlers: json.go, ssh_config.go and toml.go of internal/handlers. Handlers.JsonMerge has
--   deepMergeJSON (deep_merge, with the loop's body as merge_value), pruneNullsJSON (strip,
--   prune_nulls), Merge, Parse and Read. Handlers.SshConfig has parseSSHConfig (its loop as
--   sections), render, Merge (its body as merge_block, mergeDirectives as merge_lines) and Read; a
--   document is a list of sections, and a pointer to a line is the line that has the key first.
--   Handlers.Toml has the keys and strings of a TOML file, as encodeTOMLKey and encodeTOMLScalar
--   write them and splitTOMLKey and parseTOMLValue read them, and Handlers.Toml.Entry the lines of
--   a file and a line with both; an index into a text is the text before it and the text after.
-- Auth: internal/auth. Auth.Denylist is denylist.go, with the methods of TokenDenylist; Denied is
--   `ask`, the part of Deny under the lock is `suppress`, evictOldestLocked is evict_oldest.
--   Auth.Lifecycle is lifecycle.go: the manager with its channels as flags and its timer as the
--   time it fires at, and in Auth.Lifecycle.Cycle tryReload, checkAndRenew, runCheckCycle and the
--   three cases of the select of Start (on_reload, on_tick, on_reject).
-- Events: internal/events. Events.Seen is Seen with Admit, Events.Hub is Hub with Publish,
--   Subscribe and the cancel function; a channel is a number, with what its buffer holds.
-- VaultFs: internal/vaultfs. VaultFs.Names has the file names and KV paths of tree.go,
--   VaultFs.Cache is cache.go, VaultFs.Tree has Document, Put, Remove and InvalidateAll of tree.go
--   with the documents of document.go, VaultFs.Listing has Readdir and Lookup, VaultFs.Store has
--   NewStore and UserRoot of store.go and the paths that its methods build.
-- Config: internal/config, durations only. Config.Duration has ParseDuration of config.go and
--   ValidateDockerTTL of docker.go.
-- DockerVol: internal/dockervol. DockerVol.Spec is dockervol.go; DockerVol.Driver is driver.go
--   with saveLocked of state.go, DockerVol.Refresh is refresh.go but for its goroutines,
--   DockerVol.CertTimer its nextCertRefresh, DockerVol.State is load of state.go, DockerVol.Render
--   is render of materialise.go. DockerVol.Reach puts the sections of the driver in every order.
-- LoginSuppress: internal/loginsuppress, Path, Window and IsFresh.
-- SshFwd: internal/sshfwd. SshFwd.Backoff is backoff.go. SshFwd.Config is config.go without Load
--   and Save; an index into the entries is the entry there. SshFwd.Manager is manager.go:
--   Reconcile is `reconcile`, its critical sections `retire` and `start_missing`, and a managed
--   remote is its entry, whether its runner is started and a number that tells it from others.
--   SshFwd.Registry is registry.go: Add is `add_begin` up to the lock and `add_commit` under it,
--   and Patch, Remove and Resync are one step each; SshFwd.Registry.System has the orders in which
--   they come.
-- Prelude: byte strings, Go's maps, results, and the lemmas and cases that the parts share.
--
-- How the parts meet: the mount cleans its paths by KvPath.clean, as the code does by
-- kvpath.Clean. The engine calls a handler through the record Sync.Handler, which is
-- handlers.FileHandler with the optional Parser; the JSON handler of Handlers is one such handler.
--
-- The lifecycle manager asks the denylist before it asks Vault, and tells it what Vault rejects: a
-- pass holds the denylist of Auth.Denylist in its state. A pass takes one instant, and what Vault,
-- the token sources and the hooks answer in it is an argument, so that the answers may change from
-- pass to pass.
--
-- A mutation of the registry validates an entry with SshFwd.Config, saves the file and has the
-- manager reconcile, so that the three parts are joined in SshFwd.Registry.Sound: what the file
-- lists is what the manager manages. What the verifier reports is an argument, and an Add that has
-- verified its host waits in SshFwd.Registry.System while others take the lock.
--
-- The driver's options are cleaned by KvPath.clean, its windows are those of Config.Duration, and
-- a volume's files are the documents of VaultFs.Tree.render_document. Volumes are objects: the
-- driver has a heap of them and its registry holds references, so that a request may hold a volume
-- that is no longer registered. A request is the sequence of its critical sections, and
-- DockerVol.Reach.Step has one constructor for each. A rendering is one step whose outcome is an
-- argument; the lock that a volume has of its own is not modelled, so more orders are taken than
-- can come.
--
-- Conventions. Text is a list of bytes. A Go map is an association list, and the theorems hold for
-- every order of its entries; where a key may stand in it once only, that is a hypothesis or an
-- invariant. A call is one step, also Document of the mount, which holds no lock between its read
-- of the store and its entry in the cache, so that a Put in between is not among the orders; the
-- theorems on sequences of calls take any sequence. Times and durations are natural numbers and
-- the clock is an argument. Numbers do not wrap, since versions, counts and times are far below
-- the bounds of int, but for the windows of Config and LoginSuppress, where the code multiplies
-- what a user wrote. Recursion is on the structure of an argument, but for the decimal digits in
-- Sync.RenderHash, where the number itself is the fuel: each digit divides it by ten, so it is
-- enough; the ancestors of a path in DockerVol.Render, where the length of the path is the fuel,
-- since each ancestor is shorter; and the walk of Vault's folders there, whose fuel is the depth:
-- a walk that needs more is an error of the model's own.
--
-- Parameters stand for code outside the repository and for parts that are not modelled: Sync.Env
-- (the Vault client, the other handlers, templates, conversion of secrets, digests, and which file
-- operations fail), reflect.DeepEqual of Sync.Update, the decoder of Handlers.JsonMerge
-- (encoding/json), the digest of Auth.Denylist and Auth.Lifecycle (SHA-256), the lower case of
-- text that is not ASCII in Handlers.SshConfig, Auth.Lifecycle.World (Vault, the token sources and
-- the hooks), VaultFs.Tree.Env (the store, encoding/json, bytes.TrimSpace, the certificate
-- source), time.ParseDuration of Config and DockerVol.Spec, filepath.Join of LoginSuppress, the
-- jitter of SshFwd.Backoff and DockerVol.CertTimer, SshFwd.Registry.Env (the verifier, the
-- fingerprint of a key, what Save answers, strings.EqualFold, the lower case of other text), the
-- listing of a folder in VaultFs.Listing and DockerVol.Render, and what writing the state file
-- answers in DockerVol.Driver.
--
-- Not modelled: the timers and channels of the engine's loop, saving and loading its state file,
-- the FUSE binding of the mount, the tables and the other values of TOML, the other handlers, the
-- plugin protocol of Docker volumes, their goroutines and the writing of their files, dialling,
-- host keys and forwarding of SSH, peers, token gates, enrolment, login methods, configuration
-- files, the web server, the command line. Some of these are network, system or library calls,
-- which a model of this kind says nothing about. Logs and metrics are left out everywhere.
mod Prelude
pub mod KvPath
pub mod Sync
pub mod Handlers
pub mod Auth
pub mod VaultFs
pub mod Config
pub mod DockerVol
pub mod Events
pub mod LoginSuppress
pub mod SshFwd
