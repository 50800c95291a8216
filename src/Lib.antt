-- ===== src/Lib.antt =====
-- A model of the core of Apple Mail Fast MCP (src/apple_mail_mcp), a server that lets an agent
-- read and write mail through Mail.app, IMAP and SMTP.
--
-- Every tool of server.py passes the gates of security.py before a connector acts: the rate limiter,
-- which counts the calls of a tier, and the test-mode gate, which keeps a test run to one account, to
-- rules with a prefix and to reserved recipients; both write to one audit log. What a tool got from
-- the caller or from mail reaches AppleScript, a file, a mailbox or the client only through the
-- functions of utils.py.
--
-- Base: shared helpers: Boolean tests on numbers, lists, and association lists for dicts.
-- Text: Python's str as the list of its code points, with the methods that the code calls.
-- Security: src/apple_mail_mcp/security.py.
--   RateLimit: RateLimiter. The deques of the tiers are the state, `check` is a step of it.
--   Audit: OperationLogger and check_rate_limit, over the two process-wide objects.
--   Validators: validate_bulk_operation, validate_attachment_type, validate_attachment_size.
--   Safety: check_test_mode_safety, send_recipients_test_violation and what they call.
-- Utils: src/apple_mail_mcp/utils.py, a module per group of functions.
--   Escape: escape_applescript_string, format_applescript_list, parse_applescript_list,
--     sanitize_input.
--   Body: make_body_safe, over UTF-8 byte by byte. Thread: walk_thread_graph.
--   Filename, Mailbox: sanitize_filename, sanitize_mailbox_name, is_gmail_system_label.
--   Subject, MessageIds: normalize_subject, parse_rfc822_ids.
--   Senders: extract_address, address_domain, rank_senders. Colors: validate_flag_color,
--     get_flag_index, and the tests of hosts and MIME types.
-- Junk: the scheduled cleaning of junk folders.
--   Evidence, Campaigns: src/apple_mail_mcp/junk_campaigns.py. A table of the database is the list of
--     its rows, a statement a function on them.
--   Cleaner, with its child Run: src/apple_mail_mcp/junk_cleaner.py. The state is the database and the
--     world outside; a call returns or raises, and either way leaves a state.
--   Health: check_provider_health of src/apple_mail_mcp/junk_health.py.
-- Imap: src/apple_mail_mcp/imap_connector.py. A session is a state with the commands sent so far and the
--   state outside; a method is a program of a monad over it, which can raise.
--   Search, Dates: the guard on arguments and the search programs. Meaning and Evaluation, below Search,
--     have the sense of a program by RFC 3501. Folders, Messages: the methods that change a mailbox.
--   Triples: rules for what a session sends. Commands: what the methods send, and what they refuse.
--   Server: a server that works. Uids, Resolution, Deletion: the methods on such a server.
--   Bodystructure: the attachments of a message. Envelope, Rows: the rows of a search.
--   Pool: ImapConnectionPool as a step relation of the threads that use it.
-- Templates: src/apple_mail_mcp/templates.py: the file format, and the store over a directory, which is
--   the list of its files; names that differ in case are two files.
-- Drafts: src/apple_mail_mcp/draft_builder.py and drafts.py. Builder: the subjects, the recipients and
--   the headers of a draft. Seeds: what a draft's later update needs, a file of JSON for a draft.
-- Threads: src/apple_mail_mcp/thread_inspection.py. Script: the AppleScript that reads the candidates,
--   with its limit, its errors and its deadline. A row is what _enrich_row returns, and Mail.app the
--   parameter `MailApp`: what it answers to a search, and when the clock passes the deadline.
-- Server: src/apple_mail_mcp/server.py, of which the tool delete_messages with its confirmation. What
--   it calls is the parameter `Services`; what a call of the connector does is a state outside.
--
-- Parameters. `Unicode` is what the Unicode tables say of str.lower outside ASCII. The environment is
-- a function from names to values, and osascript a function from an account name to how the script
-- ended, which the code caches on its first call. A clock reading is a number of nanoseconds, where
-- the code has a float of seconds, so the rounding of floats is not modelled.
--
-- `Client` has what the IMAP connector calls of IMAPClient, with any answers. `IsServer` is what the
-- theorem on permanent deletion relies on: the session opens, queries change nothing, a search returns
-- the UIDs that its program asks for, and flags and UID EXPUNGE act on the selected mailbox. The
-- decoding of bytes and of encoded words is `Decoders`, and a FETCH a function of a chunk of UIDs.
--
-- `Outside` has what the cleaner calls: the mail connector, the builder of a provider's client, the
-- client's deletion and the database's clock. The address parser of the email package is a function
-- from a sender to an address; what the Unicode tables say of digits and letters is `CharClasses`.
--
-- Bounds and fuel. The chunks of ids, and the scan of the rows, have a round for each id or UID, and
-- each takes at least one. The loop of normalize_subject has one round more than the stripped subject has
-- characters, which always suffices, since a round takes a character off. walk_thread_graph has the
-- source's own cap on its rounds, clear_junk_flags the source's hundred batches, and the printing of
-- a number one digit more than the number. make_body_safe takes its limit as a natural number: the
-- server's reader of the limit admits positive numbers only. The numbers of the cleaner's
-- configuration are natural, since its checks refuse the others.
--
-- Not modelled: the connector and the other tools (mail_connector.py, server.py), which build
-- AppleScript; of the IMAP connector, the text of a message's MIME parts, the thread tiers and the
-- timeouts of sockets; of threads, the parsing of headers and dates; of drafts, the MIME parts and
-- the inspection of saved ones; the rendering of templates, the fleet, the installers and the
-- command lines; of junk cleaning, the migration of the schema, the stages of the report and the
-- providers' clients; of utils.py and security.py, the functions on regular expressions and JSON;
-- and what is written to Python's logging.
pub mod Base
pub mod Text
pub mod Security
pub mod Utils
pub mod Imap
pub mod Drafts
pub mod Threads
pub mod Server
pub mod Junk
pub mod Templates
