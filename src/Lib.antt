-- ===== src/Lib.antt =====
-- Verification of bongsu, a server that collects the packages of hosts and matches them against
-- vulnerability advisories.
--
-- A package is affected by an advisory when its version lies below the fixed one, so everything
-- stands on the comparison of versions, internal/server/vercmp:
--   Vercmp          vercmp.go: `compare` (Compare), `family`, and the switch between the comparators
--   Vercmp/Deb      deb.go: `compare_debian` (compareDebian), `verrevcmp`, `split_debian_version`
--   Vercmp/Rpm      rpm.go: `compare_rpm` (compareRPM), `rpmvercmp`, `split_evr` (splitEVR)
--   Vercmp/Apk      apk.go: `compare_alpine` (compareAlpine), `apk_valid`; the scanner in its child
--   Vercmp/Generic  generic.go: `compare_generic` (compareGeneric) and its parser
--   Vercmp/Chars, Vercmp/Digits  the byte tests and digit runs that the files share
--   Vercmp/Laws     what holds of `compare` in all of them
--
-- internal/server/db/classify.go decides with them which advisory covers a package:
--   Classify            the advisory's products, ranges and events, as the JSON is decoded
--   Classify/Ecosystem  `normalize_ecosystem`, `package_category`, `is_os_ecosystem`
--   Classify/Fixed      `fixed_versions` (fixedVersions) and what a safe fixed version is
--   Classify/Range      `compare_versions`, `version_in_range`, `version_is_affected`; a step of
--                       the loop over events has returned or goes on with `active`
--   Classify/Cpe        `compatible_cpe_candidate` (compatibleCPECandidate) for runtimes
--   Classify/Candidate  `compatible_security_candidate` (compatibleSecurityCandidate)
-- `json.Unmarshal` is a parameter of the two candidates, and may return any products.
--
-- internal/server/aipolicy/aipolicy.go decides what the AI may do with a finding:
--   Aipolicy            `decide` (Decide), `resolve_outcome`, `normalize_mode`
--
-- internal/server/api/login_limiter.go keeps out who guesses passwords:
--   LoginLimiter        `blocked`, `fail` and `success` on the state of the limiter; a time is a
--                       number of nanoseconds and the map is an association list
--
-- internal/server/api/scheduler.go starts the scans that are due:
--   Scheduler/Cron      `parse_cron_field`, `parse_cron` (parseCron)
--   Scheduler/Next      `next_cron_time` (nextCronTime), `compute_next_run`; a time is a number of
--                       nanoseconds, and the calendar is a parameter
--   Scheduler/Tick      `expand_host_filter` and `run_scheduler_tick`, as the list of the calls that
--                       write to the database
-- `next_cron_time` tries 525960 minutes, as the code does.
--
-- internal/server/api/api_token_store.go holds the API tokens that are active:
--   TokenStore          `refresh`, `put`, `evict`, `lookup`, `mark_used` on the state of the store;
--                       SHA-256 is a parameter
--   TokenStore/World    the steps of the store and of the database, interleaved; a refresh asks the
--                       database in one step and ends in another
--
-- internal/server/db/rbac.go decides which hosts a subject may see:
--   Rbac                `merge_access_scopes`, `can_read_host`, `parse_access_subject_ref`
--   Rbac/Scope          `access_scope_of_rows` (getAccessScopeForPermissions, behind its query); the
--                       queries for hosts are a parameter
--
-- internal/agent/reporter/spool.go keeps on disk what the agent could not send:
--   Spool/Names         `spool_file_name` (spoolFileName), `spool_max_from_env`
--   Spool/Store         the spool directory, a list of entries, and `spool_report` (SpoolReport)
--                       with `evict_for_capacity`; `Faults` says which system calls fail
--   Spool/Replay        `replay_spool` (ReplaySpool); `Send` and the decoder are parameters
--
-- internal/agent/scanner reads the package databases of a host:
--   Scanner             the package record
--   Scanner/Ecosystem   `ecosystem_for_type`, `purl_for_package`, `distro_id_from_root`
--   Scanner/Lines       the lines of a file, as bufio.Scanner gives them with a bounded buffer
--   Scanner/Apk, Scanner/Dpkg, Scanner/Rpm   `parse_apk_installed`, `parse_dpkg_status`,
--                       `parse_rpm_query` and the names of source packages
--   Scanner/Root        `scan_root` (ScanRoot), which reads the first database of a root
--
-- internal/agent/scanner/lang.go finds the packages of languages in lock files, wherever they lie:
--   Scanner/Lang, Scanner/Lang/Cargo  the parsers of the files
--   Scanner/Lang/Walk   `scan_language_packages` (ScanLanguagePackages) on a tree of files
--
-- internal/server/cvematch hands the packages of a host to a matcher, as SBOM documents:
--   Cvematch            the fields of a package and of a host (internal/shared/models)
--   Cvematch/Purl       `build_purl` (buildPurl), `infer_os_pkg_type`
--   Cvematch/Sbom, Cvematch/CycloneDx, Cvematch/Spdx   `generate_cyclone_dx`, `generate_spdx`:
--                       the documents before they are encoded; SHA-1 is a parameter
--   Cvematch/Groups     `package_match_groups`, and `match_packages` (Match) with the matcher of a
--                       group as a parameter
--
-- internal/server/api/ai_actions.go and internal/server/db/ai_approvals.go let the AI act, or put its
-- actions before a person:
--   Approvals           the table ai_action_approvals and its statements
--   Approvals/Execute   `ai_policy`, `execute_ai_action`
--   Approvals/Actions   `govern_ai_analysis_action`
--   Approvals/Handlers  `handle_decide_ai_approval`, `handle_apply_vuln_analysis`
--   Approvals/Execution the statements of any number of handlers, interleaved
-- internal/server/api/vuln_analysis.go and ExtractJSON of internal/server/llm/llm.go let a language
-- model assess a finding, store the assessment and hand its action over:
--   Approvals/Json      `extract_json` (ExtractJSON)
--   Approvals/Analysis  the prompt, the schema of the answer and the hash of the facts (in its child
--                       Prompt), and `assess`
--   Approvals/Analysis/Batch  `analyze_candidate` (analyzeCandidate), `run_analysis_batch`
--
-- internal/agent/reporter/reporter.go sends what the agent has to the server:
--   Reporter            the delays between attempts, in 64 bits
--   Reporter/Calls      `do_with_retry`, `send`, `claim_scan_request`, `complete_scan_request`
--
-- internal/server/api/notify.go, notifier_engine.go and notifier_email.go tell others of a scan:
--   Notify              the thresholds and settings of the webhook
--   Notify/Deliver      the loop over the attempts of a delivery
--   Notify/Webhook, Notify/Slots  `send_event` (Send), and the deliveries that run at once
--   Notify/Rules, Notify/Email    `evaluate_and_dispatch`, `dispatch_test`, `send_email`
--
-- internal/server/api/api.go, oidc.go, util.go, middleware.go and response_cache.go stand between a
-- request and its handler:
--   Auth, Auth/Keys, Auth/Oidc  lists of names, and `verify` of the tokens of an identity provider
--   Auth/Credentials    `match_key`, `trusted_identity`, `oidc_identity`
--   Auth/Identity       `authenticate_admin`, `viewer_subjects`, `access_scope` and their kind
--   Http, Http/Status, Http/Middleware  parameters, `apply_agent_status`, `cors`, `client_ip`
--   ResponseCache       `cached` (get), `put`, `invalidate`
--
-- Prelude holds the numbers, lists, orders and integers of the library, Text the strings.
--
-- A string is the list of its bytes. An index that only moves forward is the suffix that is left,
-- and -1, 0, 1 are the constructors lt, eq, gt; a result with `ok == false` is `none`. The
-- specifications Vercmp/Deb/Parts, Vercmp/Rpm/Tokens and Vercmp/Apk/Order describe a version as a list
-- of parts or tokens, and compare lists element by element. They share with the models of the code
-- the byte tests of Vercmp/Chars and the number that digits stand for; Vercmp/Apk/Order stands on
-- the scanner and on `apk_compare_fraction` of Vercmp/Apk as well.
--
-- A time is a number of nanoseconds, and where the code asks for the time it is an argument. The code
-- that holds a lock is one step on the state. Log messages are left out.
--
-- Loops that move two cursors run on fuel: one more than the number of bytes of both strings in
-- `verrevcmp` and `rpmvercmp`, and one more than twice the number of bytes in the loops over an apk
-- scanner, where a token of SUFFIX_NO may be empty. Each round moves a cursor, or the state of the
-- scanner off SUFFIX_NO, so that this is enough.
--
-- `int` is 64 bits wide in the apk scanner, whose values wrap around, and in `strconv.Atoi`.
-- `strings.TrimSpace` and `strings.ToLower` are those of ASCII text.
--
-- Where a statement of the database decides, as for the approvals, it is one atomic step on the rows.
--
-- Not modelled: ClassifySecuritySource, whose rules are texts of SQL; the other SQL statements,
-- which run in the database server; the HTTP handlers that pass data on between requests and the
-- store; the requests to external services (trivy, the identity provider, the language model, the
-- mail server); the code of the agent that runs programs and reads their output or detects
-- runtimes; the shell scripts that the installer writes; flags, start-up code and goroutines.
pub mod Prelude
pub mod Text
pub mod Vercmp
pub mod Classify
pub mod Aipolicy
pub mod LoginLimiter
pub mod Scheduler
pub mod Spool
pub mod Scanner
pub mod Cvematch
pub mod TokenStore
pub mod Rbac
pub mod Approvals
pub mod Reporter
pub mod Notify
pub mod Auth
pub mod ResponseCache
pub mod Http
