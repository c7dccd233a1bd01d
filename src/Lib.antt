-- ===== src/Lib.antt =====
-- peercast-mi: a PeerCast node that relays and broadcasts media streams.
--
-- The parts of the program, and the files that model them:
-- * Content (internal/channel/content.go): the ring buffer between the source of a channel and its
--   readers. `ContentBuffer` is the state; `set_header` and `write` are SetHeader and Write, and
--   `since`, `packets_after`, `oldest_pos`, `newest_pos` and `content_position` its readers.
--   Content.Stream describes what it promises: a bounded window of the last packets.
-- * Nodes (internal/channel/nodes.go, observed_hosts.go, internal/pcputil/host_info.go): what a channel
--   knows of other nodes. `NodeTable` is the state; Nodes has `add_known_host` and
--   `select_source_hosts`, Nodes.Stats has updateStats, removeStats, totals, reset, ObserveHost and
--   KnownHosts, Nodes.Ids the reading of HOST atoms.
-- * StreamKeys (internal/channel/stream_key_store.go): accounts and their stream keys, with the
--   outcome of each save or load of the cache file as an argument.
-- * Channel (internal/channel/channel.go): a channel with its ring buffer, its node table, its output
--   streams and bans. A call that acts on output streams returns what it did as events, in order.
--   Channel.Life is the state machine of the streams of one channel.
-- * Manager (internal/channel/manager.go): the active channels by identifier and stream key, and their
--   relay clients. Manager.Life is the state machine of broadcasts, relays and stops. Cleaner
--   (internal/channel/cleaner.go) stops the idle relays of a manager.
-- * Route (internal/pcputil/bcst.go): RouteBcst. Network (internal/pcputil/network.go): AtomIP,
--   ReplaceChild, and the state of a node's own address and port. Network.Host (internal/pcputil/host.go)
--   builds the HOST atom by which a node reports itself, and Relay.Reports reads it back.
-- * Relay (internal/relay/sourcenode.go, ignorednode.go, select.go, findtracker.go): the hosts that a
--   relay can take its stream from, those that it ignores for a while, and the choice among them.
--   Relay.Tracker is the lookup of a channel's tracker at the yellow pages.
-- * Client (internal/relay/client.go, reconnect.go): a channel's connection to its upstream node.
--   Client has the receive loops, Client.Exchange the handshake and connectTo, Client.Run the loop of
--   Run over the hosts that can be tried.
-- * Output (internal/servent/output_base.go, pcp.go, http.go): a stream to another node or a player.
--   Output.Handshake is the handshake with a node, Output.Stream the sending of packets to one, and
--   Output.Player the rounds of a player's stream. Listener (internal/servent/listener.go) admits
--   streams to channels under the limits of the server; Listener.Viewers reads the requests of viewers
--   and chooses the answer.
--   Listener.Policy (internal/channel/policy.go) is the slot check that a channel announces by.
-- * Info (internal/channel/info.go): the description of a channel.
-- * Limiter (internal/rtmp/publish_limiter.go): the limit on attempts to publish. Rate
--   (internal/servent/rate.go): the bytes that a connection sends in a second.
--
-- Pcp stands for the library github.com/titagaki/peercast-pcp: its atoms and functions are the fields
-- of a record, which the definitions take as an argument. Samples is a concrete one for tests. The
-- standard library's address functions, random numbers and floating-point scores are arguments too.
-- Version has the constants of internal/version/version.go, and Base the lists, maps and tests that the
-- other modules share.
--
-- A call that holds a mutex is one step, and its clock is an argument: times are counts of
-- nanoseconds, and 0 is the zero time. Positions are 32-bit numbers that wrap, and bytes, times to
-- live and hop counts wrap at 2 ^ 8. Counters of streams and packets are Go ints, which do not reach
-- 2 ^ 63. Maps are lists of entries, of which the order shows in no statement. Loops are
-- structural recursion, over a list or a number of rounds left. Two have fuel: the splitting of a
-- packet has as many rounds as the packet has bytes, and each takes at least one; the eviction under
-- a global limit needs more rounds than the channel has relays, and each evicts one or is the last.
-- A duration limit below 0 acts as 0, which is how it is read.
--
-- Not modelled: sockets, goroutines and files; the select loop of a stream to another node, and when
-- a node sends its reports; the text of answers and playlists, the RTMP input, the yellow pages, the audit
-- log, the web interface, and of a channel its snapshots for the API.
pub mod Base
pub mod Client
pub mod Content
pub mod Pcp
pub mod Samples
pub mod Network
pub mod Nodes
pub mod StreamKeys
pub mod Version
pub mod Channel
pub mod Route
pub mod Listener
pub mod Manager
pub mod Cleaner
pub mod Info
pub mod Limiter
pub mod Output
pub mod Rate
pub mod Relay
