-- ===== src/Lib.antt =====
-- Imapped mirrors mail accounts: a syncer reads an upstream IMAP server and records messages,
-- flags and bodies in a database, and a server of its own shows the mirror to mail clients, whose
-- flag changes are queued and replayed upstream. This library models the parts that decide what is
-- mirrored, and proves them correct.
--
-- Parts and files. A part's definitions are named after the functions, in snake case.
--   Base, Base/*: shared tests, lists measured by native numbers, int64 values as bit patterns
--     (Base/Int64), strings as lists of character codes (Base/Text).
--   Store/Tables, Messages, Bodies, Mailboxes (internal/store/messages.go, mailboxes.go): the
--     tables as a record of lists, each statement a function on it, a transaction that fails an
--     Option. Store/Steps puts the statements together as steps; Store/Steps/* are the invariants.
--   Store/Mutations (internal/store/mutations.go): the queue of changes to replay, with its
--     statements; Store/Mutations/* what claims, failures and repeated changes lead to.
--   Upstream/Errors, Upstream/Retry (internal/upstream/retry.go): errors as chains of causes, their
--     classes, the back-off and the retry loop. Upstream/Session (session.go): the handle that
--     reconnects and reopens its mailbox. Upstream/Bodies (fetchbody.go): a FETCH of bodies.
--   Syncer/Planner (internal/syncer/planner.go): the batches and chunks of FETCH commands.
--     Syncer/Claims (claims.go): the table of claims that producer and workers share.
--     Syncer/Headers, Syncer/Metadata (mailbox.go): a message's row from its envelope, and the
--     metadata pass as a sequence of steps, each of which may end it.
--     Syncer/Bodies (mailbox.go, upstream/fetchbody.go): a batch of bodies, its claims and errors.
--     Syncer/Pool (mailbox.go): the body pass, its producer and workers as moves of a schedule.
--     Syncer/Mirror (mailbox.go): the work on one mailbox, its row and the two passes.
--     Syncer/Replay (mutations.go): the queue of changes, replayed through a session.
--     Syncer/Account (engine.go): the run over an account's mailboxes; Syncer/Priority: their order.
--   Blob/Keys, Blob/Memory, Blob/Files (internal/blob): the content-addressed stores.
--   Config/Validate (internal/config/validate.go, config.go): the checks of a configuration.
--     Config/Load (load.go): file, environment and deprecated names, and where a value came from.
--   Mailstore/Truncate (internal/mailstore/parse.go): truncate, which cuts previews and body texts.
--     Mailstore/Markup (the same file): stripHTML and makePreview.
--   Imapsrv (internal/imapsrv/session.go, fetch.go, search.go): a client's session, flags, message
--     sections, search criteria, and message numbers. Imapsrv/Listing (list.go): LIST patterns.
--     Imapsrv/Addresses (list.go): the addresses of an envelope.
--     Imapsrv/Statuses (list.go, session.go): LIST and STATUS, and the UIDVALIDITY of clients.
--   Each */Tests holds small runs, and an instance of each theorem at a concrete input.
--
-- How they meet: the metadata pass (Syncer/Metadata) runs the planner's chunks and the statements
-- of Store; a batch of bodies (Syncer/Bodies) runs a FETCH of Upstream/Bodies with the claim table
-- and the statements of Store; the replay (Syncer/Replay) runs the queue of Store over a session;
-- the run over an account (Syncer/Account) calls the work on one mailbox through the interface
-- Engine; the client session (Imapsrv/Session) calls the store through the interface Backend;
-- sessions and retries use the severities of Upstream/Errors. The connector, the IMAP client, the
-- clock, the random source, JSON, SHA-256 and the form of dates are parameters. The message sets of
-- the vendored IMAP library are the interface Syncer/NumSets, with lists of ranges as an instance.
--
-- Bounds and fuel. A w-bit sum wraps where the code may overflow: sizes and durations are int64,
-- UIDs uint32. Ids, counts and times that only grow are natural numbers. Loops recurse on their
-- lists or on the attempts left; the loops over an index (PlanMetadataChunks, ChunkUIDRange) take
-- fuel, one round for each UID, which is enough while the last chunk ends below 2 ^ 32. The loop of
-- ReplayMutations takes fuel too, one round for each batch; how many rounds it needs depends on the
-- clock, which makes failed changes due again, so no bound is claimed for it.
--
-- Concurrency. A method that holds its lock, and a statement of the database, is one step; what
-- other transactions hold at that moment is the parameter `locked`, and the order of rows that no
-- clause fixes is the parameter `returning`. The goroutines of a body pass (Syncer/Pool) move in any
-- order, one attempt at a batch at a time, with the metadata pass and others changing the tables between their moves; in
-- Syncer/Mirror the metadata pass stands in one piece between two stretches of such a schedule.
--
-- Simplified: case folding and the trimming of blanks are ASCII; columns that no modelled
-- statement reads (updated_at, envelope, bodystructure) are left out, and so are logs and progress
-- reports. Not modelled: the web interface, accounts and users,
-- MIME parsing, encryption, the decoding of configuration files and the command line; those that
-- are input and output or calls of a library stay outside.
pub mod Base
pub mod Config
pub mod Blob
pub mod Mailstore
pub mod Store
pub mod Upstream
pub mod Syncer
pub mod Imapsrv
