-- ===== src/Lib.antt =====
-- A model of wgturn-core, a library that tunnels UDP through TURN relays.
--
-- A configuration file (pkg/wgconf) sets up either side.
-- The client side is a tunnel (pkg/wgturn) over a hub (internal/proxy) with several streams. The
-- hub takes packets from a local listener and hands each to a ready stream; each stream gets its
-- TURN credentials from the hub's cache (internal/creds), which a provider fills from a call of VK
-- or of Yandex Telemost (pkg/wgturn/provider), and opens its connection with a 17-byte preamble
-- (internal/framing). The server side (pkg/wgturnsrv) reads the preamble and groups the
-- streams of one client into a session over one backend connection.
--
--   Prelude    shared names, tests on numbers, lists, Go strings as lists of bytes
--   Framing    internal/framing/framing.go: WriteHandshake, ReadHandshake
--   Creds      internal/creds/cache.go: the credentials cache
--   Session    pkg/wgturnsrv/session.go: slots, round robin, termination
--   Server     pkg/wgturnsrv/config.go, server.go: the map of sessions, its goroutines, Stop
--   Bridge     pkg/wgturnsrv/backend_kernel.go: the backend that is a kernel in the same process
--   Hub        internal/proxy/hub.go: NewHub, hintFor, scheduleLoop, Stats
--   Tunnel     pkg/wgturn/config.go and tunnel.go: Validate, withDefaults, New, Start, Stop
--   Conf       pkg/wgconf/parse.go: the configuration file, line by line
--   Stream     internal/proxy/stream.go: run, runOnce, pumpRaw, pumpDTLS
--   Json       what encoding/json gives the two credential providers below
--   Vk         pkg/wgturn/provider/vk: errors.go, captcha.go, api.go and Fetch; captchasolve/chain.go
--   Yandex     pkg/wgturn/provider/yandex: api.go, ws.go and Fetch
--   Links      pkg/wgturn/provider: vk/parse.go and yandex/parse.go, calls' links and TURN URLs
--   Share      pkg/wgshare/share.go, convert.go: the link of a client's profile, ToTunnelConfig
--   Kernel     pkg/wgkernel/config.go: Validate and IPC; pkg/wgshare/convert.go: ToKernelConfig;
--              pkg/wgkernel/kernel.go: New, Start, Stop, Stats
--   Admin      pkg/wgadmin: the server's clients. Admin/Allocate is subnet.go, Admin/File is
--              wgconf.go, and Admin is server.go: List, Provision and Revoke
--
-- A function of the source has its name in snake case: `HandleAuthError` is `handle_auth_error`.
-- Strings are lists of bytes, with the white space and the letter case of ASCII. An `int` that the
-- code compares with zero is a `ConfigInt`; `uint64` counters wrap at 2 ^ 64.
-- Times are arguments. Methods that hold a lock are atomic steps; the Close of a
-- connection to the bridge is two, since it frees the backend under a lock of its own.
-- All loops are recursions on a list or on the number of slots left to look at, so that no fuel can
-- run out. The search for a free address has as many rounds as the subnet has addresses, and a
-- number is printed with 20 digits at most. The captcha loop has three rounds, as in the source.
-- Servers, sockets, solvers and the device of wireguard-go are parameters of the functions that
-- call them.
-- Not modelled: sockets, DTLS and TURN themselves, HTTP headers and TLS of the credential
-- providers, the captcha solver that drives a browser, the command line, and logging.
pub mod Prelude
pub mod Framing
pub mod Creds
pub mod Session
pub mod Server
pub mod Hub
pub mod Tunnel
pub mod Bridge
pub mod Json
pub mod Links
pub mod Conf
pub mod Admin
pub mod Share
pub mod Kernel
pub mod Vk
pub mod Yandex
pub mod Stream
