-- ===== src/Lib.antt =====
-- ZeroNode: an incident-response agent that proposes firewall changes, has a human approve them,
-- carries them out and keeps an audit ledger. This library models the parts of its API service
-- (apps/api/app) that decide what reaches a device and what is recorded.
--
-- How the parts interact. A job queue hands investigations and resumptions to workers (Jobs). The agent's
-- proposal is simulated against the device's policy before a human sees it (Verify, over the rule model
-- of Firewall). An approval is allowed in a change window (Schedule) and is sealed into a chain of signed
-- records (Audit). An approved change is guarded, rendered, pushed, read back and, if that fails, undone
-- (Execute). Who may approve is decided by role, kind and second factor (Auth), and alerts from outside
-- open investigations (Ingress).
--
--   Jobs.State, Jobs.Dispatcher      jobs/store.py and jobs/dispatcher.py, InMemoryDispatcher. Each method
--                                    is one function from the state to the new state, since it holds the
--                                    lock; Steps makes any interleaving a sequence of calls.
--   Jobs.Postgres                    jobs/store.py and PostgresDispatcher of jobs/dispatcher.py: each statement
--                                    on tables as lists of rows. Calls and Replay run both classes on the
--                                    same calls; Locks lets the claims of several workers interleave, each a
--                                    selection that locks its row and an update that commits.
--   Jobs.Resilience                  jobs/resilience.py: CircuitBreaker, call_with_retry.
--   Firewall.Policy                  firewall/policy.py: AclRule, parse_acl_command, evaluate_flow.
--   Firewall.Normalize               firewall/normalize.py: the vendors' wrappers.
--   Firewall.ObjectGroup             firewall/objectgroup.py: the readers, _expand. Its depth is bounded by the
--                                    number of groups and objects and one, which is enough since each
--                                    call that goes deeper puts a new name into `seen`.
--   Firewall.Nat                     firewall/nat.py: parse_show_nat, assess_flow.
--   Firewall.Ipv4                    IPv4 addresses and networks as the standard library documents them.
--   Audit.Record, Audit.Ledger       audit/ledger.py, keys.py, store.py, anchor.py: seal, append_approval,
--                                    verify_chain, check_against_anchor.
--   Execute.Base, Render, Session    execute/base.py, render.py, session.py: results, lines, the screen.
--   Execute.Guard, Live              execute/guard.py, live.py: what is checked before and after.
--   Execute.Device, Idempotent       execute/device.py, dryrun.py, idempotent.py: apply, the reversal,
--                                    skipping what has landed, replaying a stored result.
--   Verify                           verify.py: verify_change, verify_rollback, scope and NAT findings.
--   Auth                             auth/ratelimit.py, models.py, tokens.py, deps.py, totp.py, store.py and
--                                    routers/auth.py: the limiter, the principal of a request, one-time
--                                    passwords, signing in and the second factor.
--   Ingress                          ingress/alertmanager.py and models.py: what an alert is read as.
--   Schedule                         schedule.py: reading the settings, windows, freezes, the next opening.
--
-- Conventions. A Python text that the code walks is the list of its code points, read as ASCII; a text that
-- it only compares is a String. Messages are constructors with what they are formatted from. Numbers are
-- natural; the line of a rule is an integer. An exception is a value (none, or a constructor). Loops are
-- structural; the retry loop has max_retries + 1 rounds, or none if that is negative, which is how often
-- the source's `for` runs.
--
-- Parameters. The transport and the devices (Execute.Device.Devices), the reader of policies, the
-- NAT assessment of a device, the reading of an ISO date, what each attempt of a model call comes to, the
-- clocks, Argon2, JWT decoding and HOTP, and JSON, SHA-256 and Ed25519 (Audit.Record.Crypto) are
-- arguments; what is relied on is a named hypothesis: that a key's signatures verify, that two given
-- lists of records do not collide under the hash, and that a digest is a text of letters and digits.
--
-- Not modelled: the transport of the device readers and their parsers of other commands, the agent graph
-- and the language model, issuing tokens and cookies, the other HTTP routers, the other kinds of alerts,
-- topology stores, settings and logging, time zones, the `health` reads of the dispatchers, the web
-- client.
pub mod Prelude
pub mod Jobs
pub mod Firewall
pub mod Audit
pub mod Execute
pub mod Verify
pub mod Schedule
pub mod Auth
pub mod Ingress
