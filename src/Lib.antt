-- ===== src/Lib.antt =====
-- Verification of mailarchive: acquisition into the archive, the retention policy and the controlled
-- remote deletion.
--
-- mailarchive copies mail from IMAP, Gmail and POP3 accounts into a local archive, keeps an SQLite
-- inventory of it, and can, under many conditions, delete archived messages from the server. This
-- library models the parts that bring a message into the archive, decide about its deletion on the
-- server and carry that out:
--
--   * `Models` and `Db`: the configuration (src/mailarchive/models.py) and the tables of
--     src/mailarchive/db.py that this part reads and writes, as lists of rows;
--   * `Retention`: src/mailarchive/retention.py. `Retention/Reason` and `Retention/Policy` are
--     `evaluate`; `Retention/Inventory` is the query and the collection of facts, `Retention/Report`
--     the loop of `evaluate_all`; `Retention/Control` is `set_control`;
--   * `Mutation`: src/mailarchive/remote_mutation.py. `Target` is `DeletionTarget`, its fingerprint
--     and `_target`; `Result` is `_normalize_result`; `Query` holds the look-ups; `Plan` is
--     `plan_dry_run`; `Engine` has `_still_current`, `_halt_stale` and `_record_outcome`; `Serial`
--     is the loop of `_execute_serial`; `Authorize` and `Production` are
--     `execute_production_plan`; `Reconcile` is `reconcile_production_run`; `History` is
--     `remote_mutation_status`;
--   * `Pop3` and `Gmail`: the adapters of src/mailarchive/pop3_mutation.py and
--     src/mailarchive/gmail_mutation.py over their protocols `Pop3MutationWire` and
--     `MutationTransport`. `Pop3/Octets`, `Pop3/Connection` and `Pop3/Listing` are `_MutationWire`,
--     from the bytes that a socket returns to the listing of `UIDL`; `Pop3/Acquire` is `_Pop3Wire` of
--     src/mailarchive/pop3.py and the commands that a synchronization sends;
--   * `Imap`: the readers of IMAP responses of src/mailarchive/imap.py (`Response`, `Mailbox`), and
--     the adapter of src/mailarchive/imap_mutation.py over its protocol `ImapClient` (`Delete`,
--     `Attempt`);
--   * `Links`: `register_remote_link` of src/mailarchive/imap.py and `register_pop3_link` of
--     src/mailarchive/pop3.py, which bind a remote identity to an archived message;
--   * `Archive`: src/mailarchive/ingest.py, `ingest_bytes` with the files it writes (`Create`), and of
--     src/mailarchive/db.py `register_canonical_message` (`Register`) and the account rows of
--     `initialize` (`Accounts`);
--   * `Classification`: `RspamdAdapter` of src/mailarchive/classification.py, from the decoded answer
--     of Rspamd to the verdict.
--
-- Acquisition reads a message from a server, admits its bytes by `ingest_bytes`, and registers the
-- link; retention reads the links and the archive; deletion goes through an adapter to the server.
--
-- State is passed on: a database `Db`, and a world of type `W` for all outside it. `Host` holds what
-- comes from Python's library (clock, files, SHA-256, JSON, dates, `str` methods), `Adapter`, `Wire`
-- and `Transport` what a provider answers; all are parameters, and a result `none` or `false` there
-- stands for an exception. Exceptions of the code itself are `raised` values of `Outcome`. `Sys` adds
-- to the database a trace of commits and provider calls, so that a crash is a cut of the trace.
--
-- A socket is the list of what its `recv` will return, after which it is closed; a server that sends
-- without an end, to which the code listens forever, is not modelled. Files are a list of paths with
-- what stands there. Both are arbitrary in the theorems, so that they hold for every way in which
-- replies are cut into pieces, other processes write and actions fail.
--
-- The serial loop takes fuel, one unit for each round; every round but the last ends
-- one planned mutation of the run, so one more than their number is enough. The loop over the lines
-- of a POP3 reply takes one unit for each byte that may still arrive, and one more: every line has at
-- least the two bytes of its end.
--
-- Assumed: one process writes to the database at a time; ids grow with insertion; one reading of
-- the clock serves a transaction. Not modelled: SQLite's own constraints, but where a part names
-- them, and migrations, TLS, the Gmail API's acquisition, the loops that tie acquisition together
-- with classification, the moves of classified files, the IDLE watcher, attachments, backup, search,
-- configuration files and the command line, the test-only `execute_fake`, the argument `now` of
-- `evaluate_all`, and exceptions of Python's `encode`, `int` and `astimezone` that the code lets
-- through. An exception of `_still_current` after its evaluation, which the schema rules out, is
-- given with the database before that evaluation.
mod Base
pub mod Errors
pub mod Classification
pub mod Db
pub mod Host
pub mod Models
pub mod Retention
pub mod Mutation
pub mod Pop3
pub mod Gmail
pub mod Imap
pub mod Links
pub mod Archive
pub mod Tests
