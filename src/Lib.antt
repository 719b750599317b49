-- ===== src/Lib.antt =====
-- anyclaw: a sidecar that connects AI agents, which run as subprocesses and speak the Agent Client
-- Protocol (ACP, JSON-RPC over stdio), to chat channels and tools. A supervisor runs three
-- managers: the agents manager keeps the agent processes and their sessions, the channels manager
-- keeps the channel processes and routes messages between channels and agents, the tools manager
-- serves tools. Each process has a slot, whose lifecycle counts crashes and delays restarts.
--
-- A message of a user enters through a channel. Its access is decided from the channel's options.
-- The agents manager then queues it for its session, a key of channel, kind and peer, opens or
-- recovers the session at the agent, and sends the prompt; updates, permission requests and the
-- end of the prompt come back from the agent and are sent to the channel of the session.
--
-- The files, by the crate that they model:
--
-- - Core: crates/anyclaw-core/src. Core.Backoff and Core.CrashTracker model backoff.rs and the
--   constants of constants.rs, Core.SlotLifecycle models slot_lifecycle.rs. Durations are natural
--   numbers of nanoseconds, as are instants, which are arguments; counters of u32 wrap around. A
--   result `none` is the panic of an overflowing Duration.
-- - SdkTypes: crates/anyclaw-sdk-types/src. Message has the content parts and the metadata of
--   acp.rs and channel.rs, Content the kinds of a delivery (ContentKind of channel.rs), SessionKey
--   the keys of session_key.rs.
-- - Agents: crates/anyclaw-agents/src. SessionQueue models session_queue.rs, with one function for
--   each method; Dispatch drives it as commands.rs and incoming.rs do, with sequences of events in
--   Order. Slot is the state of slot.rs. Sessions has the operations of commands.rs, manager.rs
--   and session_recovery.rs on the two maps of sessions. Incoming has session updates and
--   permission requests (incoming.rs), Recovery what follows the exit of an agent
--   (session_recovery.rs), Prompt the way of a message to its agent, with the platform commands
--   /new and /cancel (commands.rs, platform_commands.rs), Completion the end of a prompt
--   (`handle_prompt_completion` of incoming.rs). Store is the table of sessions of
--   crates/anyclaw-core/src (sqlite_session_store.rs, session_store.rs), and Boot the start, the
--   shutdown and the health of manager.rs, with `AgentSlot::new` and the sessions that the start
--   restores from the store.
-- - JsonRpc: crates/anyclaw-jsonrpc/src. Codec models codec.rs over a buffer of bytes; its loop
--   runs on fuel, and one more than the bytes of the buffer is enough, since each round takes a
--   line.
-- - Channels: crates/anyclaw-channels/src. AccessControl models access_control.rs. Manager is the
--   state of manager.rs with what the channels manager sends; its Events are the handlers of the
--   agents' events and of the commands, Messages, Forward and Collect take a message of a channel
--   to the agents manager, Crash restarts a channel, and Loop is the select loop of `run`. Replies
--   joins messages and events. Context models the context table of crates/anyclaw-core/src, in
--   sqlite_session_store.rs and context_store.rs.
-- - Supervisor: crates/anyclaw-supervisor/src. The root has the check of health.rs and the
--   managers of factory.rs, Boot the boot and the loop of lib.rs, Shutdown the shutdown of
--   shutdown.rs, Health the snapshot of health.rs, with the types of
--   crates/anyclaw-core/src/health.rs.
-- - Config: crates/anyclaw-config/src. The root has the limits of parse.rs and the part of
--   types.rs that is validated, Hosts and Validate model validate.rs; Rules says what is
--   well-formed.
-- - Telegram: ext/channels/telegram/src. Permissions models the buttons of permissions.rs, Split
--   the splitting of a message (`split_message` of deliver.rs), Formatting the markup of
--   formatting.rs, Turn the turn of a chat (turn.rs), and Deliver
--   `deliver_to_chat` of deliver.rs with the timers that it spawns: Thoughts, Responses, Results
--   and Tools by the kind of the content, Chat the other kinds and the choice between them. A call
--   of Telegram waits without the lock of the turns: Awaits has its answers and what other tasks
--   make of the state meanwhile, an arbitrary function.
-- - Base has what these share: Boolean tests and keys that can be compared (Tests), lists with
--   native numbers (Lists), HashMap and HashSet as association lists (Map), texts as lists of
--   bytes with i64 and its parser (Text), the searches of `str` (Search), and the accessors of
--   serde_json (Json). Files called Tests have tests and instances of the theorems.
--
-- How the code is written here: an async method is a function from the state and the answers that
-- it awaits to the new state and what it sends. A method with a lookup of its slot is modelled
-- behind that lookup. What the agent, the tools manager and the operating system answer is an
-- argument (Replies, Answers, Respawn), so that a statement over all of them covers failures and
-- timeouts as well. Connections, cancellation tokens, JSON values and pending permissions are
-- parameters (Outside), and so are the accessors of serde_json, Unicode lower-casing and the regex
-- crate. Logging is left out. A list stands for the iteration order of a HashMap, which is
-- unspecified; statements hold for all. Three loops run on fuel: the codec's, the one of
-- `split_message`, with as many rounds as the text has bytes, since each takes a byte at least,
-- and the decimal digits of a number, with a round more than the number. All other recursion is on
-- lists, texts and numbers.
--
-- Not modelled: the I/O itself (processes, Docker, sockets, SQLite), the loading of the
-- configuration and its schema, the handshake with a channel and its time limit, the admin server,
-- the tools manager, the select loop and the keepalive of the agents manager, the SDKs for writing
-- agents, channels and tools, the debug-http channel, and of the Telegram channel the messages
-- that come in (dispatcher.rs), the trait implementation (channel.rs), the answer to a pressed
-- button, the delays of the timers and the retries of a call of Telegram.
pub mod Base
pub mod SdkTypes
pub mod Core
pub mod JsonRpc
pub mod Agents
pub mod Channels
pub mod Config
pub mod Supervisor
pub mod Telegram
