-- ===== src/Lib.antt =====
-- The core of clash, in fclash/clash-core: a proxy that routes connections by rules.
--
-- The listeners (listener/) accept connections, and the handler of DNS requests (dns/) may answer with
-- fake addresses. An inbound connection is described by a `Metadata` (constant/metadata.go). The tunnel
-- (tunnel/tunnel.go) undoes fake addresses with the host mapper (component/resolver,
-- component/fakeip), asks the rules (rule/) for the name of an adapter, and dials the proxy of that
-- name. A proxy (adapter/adapter.go) may be a group (adapter/outboundgroup) that picks one of its
-- providers' proxies by the user's choice, by liveness, by delay or by turns. All paths below are
-- in fclash/clash-core.
--
-- The files:
--   * Prelude: shared names, Boolean tests on the native numbers, lists, and strings as bytes.
--   * Queue, Single: common/queue/queue.go and common/singledo/singledo.go.
--   * Pool: component/pool/pool.go; Fifo follows the elements over sequences of calls.
--   * Lru: common/cache/lrucache.go. Spec is the cache as a list of entries; Elements and Refine
--     relate the map and the list of elements to it; Operations, Run and Reads have the results.
--   * Trie: component/trie. Paths reads the trie as a map from paths to data, Patterns says which
--     patterns match a domain and in which order, Domains is about `Insert` and `Search`.
--   * FakeIp: component/fakeip/pool.go and memory.go. Address, Pairs, Trimming, Keys,
--     Memory, Methods, Loop, Range and Assign
--     build up to `Lookup`, and Answers relates it to `LookBack`.
--   * Metadata: constant/metadata.go. Rule, Rule.Parse: rule/ and constant/rule.go.
--   * Enhancer: dns/enhancer.go, the host mapper over the pool and a cache; Patching follows a
--     reload, and Mapper gives it the shape of the interface that the tunnel asks.
--   * Tunnel: tunnel/tunnel.go, tunnel/mode.go and component/resolver/enhancer.go.
--   * Adapter, Group: adapter/adapter.go and adapter/outboundgroup, one file for each kind of group.
--   * Socks5: transport/socks5/socks5.go.
--   * Picker: common/picker/picker.go.
--   * Dns: the messages and dns/util.go. Dns.Resolver, Dns.Lookup and Dns.Setup: dns/resolver.go with
--     dns/filters.go. Dns.Middleware: dns/middleware.go and the handler of dns/server.go. Ttl, Exchange,
--     Fallback, Caching and FakeAnswers have their results.
--   * Alloc: common/pool/alloc.go; Sizes has its bounds.
--   * Tunnel.Udp, Tunnel.Nat: the UDP handler of tunnel/tunnel.go with tunnel/connection.go, and the steps
--     of its packets on component/nat/table.go; Replies, Exclusion and Missed have their results.
--   * Config.Rules, Servers, Settings, Groups, Proxies: config/config.go with
--     adapter/outboundgroup/parser.go and component/auth/auth.go. Blame and Loading build groups in the
--     order of the sort, Known and Sound are about what was accepted.
--   * Config.Dag: config/utils.go, the sort of the proxy groups. Graph counts the edges, Keeps is
--     about what a change of the degrees leaves, Release is
--     about one group, Round about a round, Loop about all, Fill,
--     Pending and Build about the first graph, Sorting about
--     a call.
--   * Listener: listener/listener.go. Split compares lists of inbounds, Recreate follows a change.
--   * Tests: examples on concrete inputs.
--
-- State is passed from call to call. Locks are left out: calls come one after the other, but for the
-- packets of Tunnel.Nat, which interleave. A reading
-- of the clock is an argument. Panics and errors are values: `none`, or a data type of the file.
--
-- Loops are structural recursion. Some have fuel: the loops of the sort get the number of nodes, since
-- each round deletes one; the loop of `maybeDeleteOldest` gets the length of the list, since each round
-- deletes an element; and the loop of the pool's `get` gets one round for each address of the range and
-- one more.
--
-- Integers are the native numbers. The uint32 arithmetic of the fake-IP pool, the uint16 delays and
-- the uint64 keys of the hashing strategy wrap around where the source does. Strings are lists of
-- bytes; the case conversions are those of ASCII.
--
-- Not modelled: sockets, ciphers and the other transports, the DNS clients, the decoding of YAML,
-- the REST API and the platform code. What the modelled code asks of other packages (the GeoIP
-- database, the kernel's sets of addresses, the public suffix list, hashes, the parsing and printing
-- of addresses, byte buffers, the DNS library, the answers of the servers, the creation of sockets, the
-- order of a loop over a map) is a parameter.
pub mod Prelude
pub mod Adapter
pub mod Queue
pub mod Alloc
pub mod Picker
pub mod Dns
pub mod Config
pub mod Listener
pub mod Pool
pub mod Single
pub mod Group
pub mod Socks5
pub mod Lru
pub mod Trie
pub mod FakeIp
pub mod Metadata
pub mod Rule
pub mod Tunnel
pub mod Enhancer
mod Tests
