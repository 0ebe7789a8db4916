-- ===== src/Lib.antt =====
-- A verification library for the local MTProto-over-WebSocket proxy of this repository.
--
-- A Telegram client connects to the proxy, which re-encrypts its stream and carries it to a
-- Telegram data centre inside a WebSocket, directly or through Cloudflare. The parts modelled:
--
-- Splitter: class MsgSplitter of proxy/bridge.py, which cuts the re-encrypted stream into
--   transport packets, one per WebSocket message (`split`, `flush`, and `feed` for the calls of
--   one connection).
-- WebSocket: proxy/raw_websocket.py (`_xor_mask`, `_build_frame`, `_read_frame`, `send`,
--   `send_batch`, `recv`, `close`). A reader is the list of bytes still to come, a writer the list
--   of bytes written.
-- Balancer: class _Balancer of proxy/balancer.py. The generator `get_domains_for_dc` is
--   `next_domain`, one resumption at a time. Balancer/Dialling is the loop of `_cfproxy_fallback`
--   in proxy/bridge.py, which pulls fronts from it, dials them and reports back.
-- WsPool: class _WsPool of proxy/pool.py. Each function is the code of a task between two awaits,
--   and WsPool/Limit lets those segments interleave in any order.
-- WorkerPool: class _CfWorkerPool of proxy/pool.py.
-- Fallback: `do_fallback`, `_cfproxy_worker_fallback` and `_tcp_fallback` of proxy/bridge.py.
-- FakeTls: proxy/fake_tls.py: the handshake (`verify_client_hello`, `parse_client_hello`,
--   `build_server_hello`), `wrap_tls_record`, and the reading side of class FakeTlsStream.
-- Cipher: the CTR encryptors that proxy/tg_ws_proxy.py opens; the keystream is a parameter.
-- Handshake: `_try_handshake`, `_generate_relay_init` and `_build_crypto_ctx` of
--   proxy/tg_ws_proxy.py, with constants of proxy/utils.py. Handshake/Peers describes the client
--   and Telegram's front on their own, by the rules of the obfuscated transport.
-- Client: `_read_client_init` and `_handle_client` of proxy/tg_ws_proxy.py, from the first byte to
--   the route.
-- Bridge: `bridge_ws_reencrypt` and `_bridge_tcp_reencrypt` of proxy/bridge.py, over what the reads
--   return.
-- Http2: proxy/cf_h2.py. Http2/Packet reads and writes native packets, Http2/Channel is the room of
--   lanes and channels as a step relation, Http2/History the packets that are kept,
--   Http2/Replay when and how often one of them is sent again.
--   Http2/Window is proxy/h2_transport.py: the receive window of a response stream and the frames
--   of a request's body.
-- Config: proxy/config.py: the validity of domains, the pool that a refresh hands to the balancer,
--   the decoding of fronts, and the lists of domains that a user sets.
--   A string is the list of its code points; what Unicode says of them is a parameter.
-- Base: shared types, lists, bytes, bits, dictionaries, and exceptions as values.
-- Tests: concrete inputs.
--
-- Bytes and sizes are native numbers, times are whole milliseconds handed in by the caller. HMAC,
-- random bytes, shuffles, dials and the state of a transport are parameters, and so is what other
-- tasks do to the shared balancer during an awaited dial of a fallback (`others`), or to the worker
-- pool during the dial of a refill (`meanwhile`, `current`). Loops over a buffer
-- run on fuel: a round of `split_loop`, `recv_loop`, `appdata_loop` or `wrap_loop` takes a byte at least,
-- so one round more than there are bytes is enough; the dial loop has one round more than the
-- attempts that the balancer grants. A read of a TLS payload brings a byte at least, trimming a
-- history takes a packet out in each round, and a batch of frames has a round for each of its
-- bytes. The draws of the relay's init have as much fuel as the caller gives: that one of so many
-- random draws is accepted is a hypothesis.
--
-- Not modelled: sockets, TLS and the HTTP upgrade; timeouts of the client handler; sends that fail in
-- the bridges or before them in a fallback; of proxy/cf_h2.py which request is cancelled for room, the HTTP requests and the
-- pool of lanes; of proxy/h2_transport.py the requests, the limit on streams and the timeouts; of
-- proxy/config.py the other settings and the download; the masking relay and the
-- probe of proxy/fake_tls.py beyond their parsing; the applications, the updater and the packaging.
-- Logging and statistics that nothing reads are left out.
pub mod Base
pub mod Splitter
pub mod WebSocket
pub mod Balancer
pub mod WsPool
pub mod FakeTls
pub mod Cipher
pub mod Handshake
pub mod Bridge
pub mod Client
pub mod Http2
pub mod Config
pub mod WorkerPool
pub mod Fallback
pub mod Tests
