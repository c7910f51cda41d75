-- ===== src/Lib.antt =====
-- Verification of RVG, a proxy panel in Python: what its servers do with the bytes of VLESS, Trojan, VMess
-- and Shadowsocks, and how the panel creates, changes and deletes the configurations, groups and
-- listeners that these serve.
--
-- A connection of any of the protocols starts with a header that names the user, a command and a
-- destination; then follow the payload bytes, plain for VLESS and Trojan, in sealed chunks for VMess
-- and Shadowsocks. The tunnels (protocol/*/websocket.py, tcp_server.py, tunnel.py) feed what arrives
-- to these codecs, connect to the destination, and write what comes back through the codecs.
--
-- Prelude: Boolean tests on numbers, lists, dictionaries, and exceptions as values (Result): an
--   exception that a function raises is `err e`, and its own exceptions and those of the bytes that
--   it indexes are told apart by `e`.
-- Wire: bytes, big-endian numbers, struct and slices as Python has them, XOR of a width, and the texts
--   that the parsers build from bytes (dotted IPv4, IPv6 groups, decoding that ignores errors).
-- Header: the destination as the protocols carry it. Header.Vless is parse_vless_header of
--   protocol/vless/vless.py, Header.Trojan is parse_trojan_header of protocol/trojan/trojan.py,
--   Header.Socks is parse_socks5_addr of protocol/shadowsocks/shadowsocks.py.
-- Crypto: the parameters. An Aead is a key of the library's AESGCM or ChaCha20Poly1305; it relies on
--   decryption undoing encryption and on the tag's 16 bytes; it takes keys and nonces of any length, where
--   the library raises ValueError at a wrong one. A Suite adds the digests, of which nothing is relied on
--   but their lengths, where a theorem says so. Primitives adds AES on one block, CRC-32, and AESGCM with
--   the associated data of the header; the associated data of the body chunks is always None.
-- Vmess: protocol/vmess/vmess.py. Vmess.Kdf is the chain of _GoHMAC objects, with the objects that
--   its levels share: the state is the one pair of SHA-256 objects at the bottom (Base) and the
--   saved states that reset makes. Vmess.Source is the buffer of a BodyReader with what the
--   next calls of fill return; the end of that list is the end of the connection. Vmess.Body is
--   ShakeStream, _ChunkNonce, BodyReader and BodyWriter. Vmess.Command is parse_command_header.
--   Vmess.Replay is ReplayFilter, its set a list. Vmess.Auth is cmd_key_for (without its cache),
--   create_auth_id and decode_auth_id; Vmess.Auth.Validator is _AuthIDValidator, whose clock is an
--   argument; Vmess.Session is open_aead_header, decode_request and the answer's header and writer.
-- Shadowsocks: _AEADStream of protocol/shadowsocks/shadowsocks.py. The generator try_decrypt_chunks is
--   run to its end, as `for chunk in stream.try_decrypt_chunks()` does where no payload stops it; a
--   round is one turn of its loop. A nonce counter of 2^96 wraps, where the code raises OverflowError.
--   Shadowsocks.Keys is derive_key and _hkdf_sha1.
--
-- Links: is_link_expired and is_link_allowed of main.py, check_and_use of protocol/vless/vless.py over the
--   tables that it changes (Panel), and, in Links.Quota, the _QuotaGate that both protocol/vless/vless.py
--   and protocol/trojan/trojan.py define; its rate is a float, so a parameter, and the clock's part is
--   what a call sees of it (Instant). Links.Quota.Sessions puts two gates of one connection together.
--   Links.Hashes is _TrojanHashCache and _resolve_and_authorize of protocol/trojan/trojan.py.
-- Ports: port_manager.py. Ports holds _uvicorn_servers, _tcp_servers and port_errors; the operating
--   system's answers are a parameter (System), and a port that this process listens on is never free. The
--   calls under the locks run one after the other, the system answers one call as the other, and sync_all
--   visits its ports in the order of the links, where the code has sets.
--
-- Zeus: _handle_client of zeussocks5.py. Zeus.converse is the conversation over all the bytes that the
--   client sends, up to the relay; which destinations answer is a parameter (Server). Zeus.Admission is
--   the limits and the counters of connections at its start and its end, which may start _auto_delete;
--   Counts runs such a task as a step of its own. Zeus.Traffic is _pipe: its check and its count are steps
--   of their own, as others run while it drains; _auto_delete, which sets the count to 0, is not one of
--   them. Zeus.Lifecycle is create_zeus_proxy, delete_zeus_proxy and update_zeus_config, with the system's
--   answers as a parameter.
--
-- Xhttp: the XHTTP transport of VLESS, protocol/vless/xhttp_core.py and
--   protocol/vless/xhttshadpacketup.py. Xhttp is the session object with packet_up_upload's packets, which
--   arrive in any order, and the marks of _AdaptiveFlow (its milliseconds are nanoseconds). Xhttp.Sessions
--   is xhttp_sessions, connections and the objects, which a handler holds on to: packet_up_upload is cut
--   at its awaits (begin_packet up to the body, finish_packet behind the gate, connect_packet behind the
--   connection), and _teardown and a turn of _reaper may run in between; a _teardown is one step, its own
--   awaits included. What the gate answers is any Boolean.
-- Admin: the management of configurations in main.py. Admin is the entries of LINKS and SUBS with the
--   listeners of Ports and the users of VMess; Admin.Allocation is _allocate_listen_port, Admin.Creation
--   _create_link_core, Admin.Editing update_link, Admin.Deletion delete_link with _release_port_if_unused
--   and _migrate_invalid_core_links, Admin.Groups the handlers of groups, and Admin.Serving any sequence
--   of these requests. A handler runs to its end before the next, and what it spawns for its port runs
--   right behind it. The body of a request has the fields that the code reads, of the types that it uses;
--   the numbers of JSON (Numbers), what is drawn at random and how mtproto.start_instance ends (Draws) are
--   parameters.
--
-- Tunnel: websocket_tunnel of protocol/vless/websocket.py with relay_ws_to_tcp and relay_tcp_to_ws of
--   protocol/vless/vless.py, over parse_vless_header, check_and_use and the gates of Links. The turns of
--   both relays come in any order; a turn is not cut by the end of the other relay, and both gates are
--   flushed at the end, the upward one first (the code: that of the relay that ended first). Whether a
--   destination can be reached is an argument; a failing write is not modelled. Tunnel.Trojan is
--   trojan_ws_tunnel of protocol/trojan/websocket.py, with the same turns.
--
-- Auth: SESSIONS and AUTH of main.py: create_session, is_valid_session, destroy_session, api_login,
--   api_logout and api_change_password, which require_auth guards. A visit is any other guarded request.
--
-- Loops on fuel: the decryption loop of Shadowsocks runs for one round more than the buffer has bytes,
-- and each round takes bytes off; derive_key runs for as many rounds as bytes are wanted, and each adds
-- some; both bounds are shown to be enough below. The pieces of a VMess payload are cut with its length
-- as fuel. _need of the body reader recurses on the list of fills. The loop
-- of packet_up_upload over the packets that wait has their number as fuel, and each turn takes one.
--
-- Not modelled: the sockets, tasks and timeouts of asyncio, FastAPI's routes and WebSockets, the pages
-- of the panel (pages.py), the updater and the managed binaries (updater.py, core_manager.py,
-- core_configs.py, telemt.py), the MTProto server, the streamed uploads of XHTTP with their downlink, the
-- share links and subscriptions, nodes and backups, and the logs. Random bytes are
-- parameters. Text is a list of bytes or code points, and only its ASCII part is decoded or changed in case
-- by definition.
pub mod Prelude
pub mod Wire
pub mod Header
pub mod Crypto
pub mod Vmess
pub mod Shadowsocks
pub mod Links
pub mod Ports
pub mod Zeus
pub mod Xhttp
pub mod Admin
pub mod Tunnel
pub mod Auth
