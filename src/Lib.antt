-- ===== src/Lib.antt =====
-- The MeshLink node: a relay between phones (BLE and WiFi) and other nodes (a batman-adv backhaul), with
-- a location service behind a capability check. This library models the Python under node/,
-- and a script that runs two nodes.
--
-- The parts, and how they interact:
-- * Framing is node/ble/framing.py. `frame`, `chunk` and `feed` are the functions of those names; `feed`
--   is its while loop `drain`, on the buffer's length as fuel, which is enough as each round takes two
--   bytes or more (Framing.Wire relates every run to the stream that it parses).
-- * Gatt is node/ble/base.py: one assembler per central, the connected set, and the callbacks, whose
--   calls are events. `run` takes what the radio reports as a list of inputs.
-- * ZoneTable is node/backhaul/dynamic_zone_table.py.
-- * Directory is node/directory/cache.py, Directory.Hex the `bytes.fromhex` that it calls.
-- * Location.Store, Location.Authz and Location.Service are node/location/store.py, authz.py and
--   service.py. A chain of checks in `handle_query` is a do block of `Checked`.
-- * Relay is `NodeRelay._handle_packet` and `_handle_presentation` of node/relay.py, Relay.Parts its
--   state and the steps after the pipeline. What it asks of transports, backhaul and services is a list
--   of effects, in order, as if each such call returned; Node makes the calls, and there the first that
--   raises ends the handler.
--   Relay.Arrival puts together, with a fresh FrameAssembler, what Transport.Multi writes on a phone's
--   WiFi connection, and what it gives the BLE backend to notify, to every central that is subscribed.
-- * Transport is node/transport/: Transport.Ble on Gatt, Transport.Wifi with one assembler per connection
--   (`reader` is the `_reader` thread's loop on what `recv` returns), and Transport.Multi, which routes by
--   peer id. What their owner is called with is a list of calls. Transport.Sockets has a thread per
--   connection, each known by its socket, and their reads in any order.
-- * Backhaul is node/backhaul/: Backhaul.Udp is batman_backhaul.py, Backhaul.Sync zone_sync.py. A datagram
--   is a value; an exception of `sendto` that is no OSError leaves the call, as `none`. Which hosts that are not ASCII
--   the idna codec takes is a parameter of the backhaul.
-- * PhonePing is node/monitoring/phone_ping.py, BackendProxy node/backend_proxy.py, both over the JSON values
--   of Json.
-- * CoreBluetooth is node/ble/corebluetooth.py and Bluez node/ble/bluez.py, both on Gatt: what the system
--   calls them with is a list of callbacks, what they ask of it a list of effects. Whether the radio takes
--   a chunk is a function of how often it was asked; a flush is recursion on what waits.
-- * AccessPoint is node/wifi_ap/: Deployment, Hostapd, Hosting (base.py, hostapd.py, __init__.py, and
--   `_provision_ap` of node/main.py) and Sharing (internet_sharing.py), whose files are a state.
-- * Config is node/config.py: `settings` maps the environment to the module's constants; Config.Info is the
--   node's info file.
-- * Monitoring is the rest of node/monitoring/: Heartbeat, Battery and Host (system_stats.py).
-- * Node is all of them connected, as node/main.py connects them: `on_packet` is the relay's handler with
--   its calls made (`perform_all`), `on_datagram` the backhaul's receive loop with its two callbacks,
--   and Node.Events has a step for whatever a radio, a socket, a timer or a thread brings (`node_step`),
--   and runs of such steps in any order. Entry.Wiring is the construction, from the settings, and the starts.
-- * Organiser is node/attestation/organiser_key.py, Backhaul.Radio node/backhaul/radio_config.py, Entry the
--   rest of node/main.py: the order of starts and stops, by what ended the server's loop, and Entry.Platform node/ble/__init__.py.
-- * Demo is the two nodes of scripts/demo_phase5_attestation.py, with phones in memory: `inject` and
--   `demo_datagram` are what its script and its sockets bring them.
-- * Strings has the methods of Python's `str` that these use. Digits are written on fuel, one more than the
--   number, which is enough as each round divides by ten.
-- * Prelude has what all of them share; Examples has runs on concrete inputs.
--
-- Conventions. Bytes are lists of numbers and strings lists of code points. A call that may raise
-- returns an Option, or a result type of its own where the caller sees the difference. Times are whole
-- ticks of a clock, a million to the second; an operation that reads the clock more than once takes a
-- reading for each. What a lock guards is one step. The packages that are not in this repository are
-- parameters: the core library's decoders, verifier and sealing are the record Location.Core.Core, its
-- signer Location.Service.Signer, its packet pipelines Relay.Parts.Pipeline, its MAX_PACKET an argument
-- of the transports, and the hash of a key an argument of Directory. Python's json and its conversions are
-- Json.Json, urllib and the string codecs BackendProxy.Uplink.
--
-- Not modelled: log lines (but for the byte that the relay's last one reads, which can raise), D-Bus,
-- CoreBluetooth, HTTP and socket calls themselves, launchctl and the setup script. A file is written, and
-- the plist copied to its backup, as a whole or not at all: a copy that fails half way is left out. Threads are sequences of
-- steps: a handler runs as one step of the node, so that two handlers do not interleave within it. The
-- proxy's pool of workers is not tracked, a job may be served at any time. Entry.Wiring is the node with
-- WiFi on; its zone and its UDP port are natural numbers, and its identity and the key are given.
-- node/core/__init__.py only imports the core library. Of scripts/demo_phase5_attestation.py the HTTP calls, the
-- refused tokens, the second process and the heartbeats are left out.
pub mod Prelude
pub mod Framing
pub mod Gatt
pub mod Transport
pub mod ZoneTable
pub mod Json
pub mod Directory
pub mod Location
pub mod Relay
pub mod Backhaul
pub mod PhonePing
pub mod BackendProxy
pub mod AccessPoint
pub mod Bluez
pub mod Config
pub mod CoreBluetooth
pub mod Demo
pub mod Entry
pub mod Monitoring
pub mod Node
pub mod Organiser
pub mod Strings
pub mod Examples
