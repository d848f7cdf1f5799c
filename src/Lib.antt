-- ===== src/Lib.antt =====
-- The Rocket R60V bridge and the Home Assistant integration of this repository: what the code
-- under bridge/r60v_broker does between the espresso machine's fragile control port and its
-- subscribers, what the code under custom_components/rocket_r60v makes of it, and why both are
-- right.
--
-- The parts and how they interact. The machine answers framed requests (protocol.py) over one
-- socket, which the client (client.py) owns. Only the governor uses the client: callers put reads
-- and writes into its priority queue, and one worker performs them. The poll loop of the broker
-- reads the settings block and the live registers through the governor, and feeds the store,
-- which alone decides whether the machine is reachable; the push server and the MQTT publisher
-- are views of the store. When reads keep failing the wedge recovery stops the polling for a
-- cooldown, and resumes it after a run of good probes. A command that a subscriber sends becomes
-- a write intent: it is queued, shown at once by the store's optimistic overlay, written through
-- the governor with a few retries, and then reconciled by a settings read. The integration either
-- subscribes to the push server, which sends it every snapshot and takes its commands, or polls
-- the machine itself with a client of its own; its coordinator mirrors the wedge recovery, and
-- its entities read the snapshot.
--
-- Which file models which code:
--   Protocol/Text, Protocol/Hex, Protocol/Address, Protocol/Frame -
--     bridge/r60v_broker/protocol.py. A `str` is a list of code points; Python's `int(s, 16)` is
--     `int_hex` with its spaces, signs, prefix and underscores, and the format specs `04X` and
--     `02X` are `format_hex`. `ProtocolError` is a result value, with one constructor for each
--     place that raises it.
--   State/Snapshot - `LIVE_REGISTERS`, `le16` and `StateSnapshot` of bridge/r60v_broker/state.py;
--     State/Select - its `_enum`, `_encode_enum` and the lists of options; State/Entities - its
--     other decoders and encoders, `ENTITIES` and `CLIMATE_ENTITIES`, with the children RoundTrip,
--     Echo and Resolve, which finds the encoder of a command as `_apply_command` does.
--   Store - the class `DeviceState` of bridge/r60v_broker/store.py, a record and one function for
--     each method. A listener is a number, and `calls` records who was called. Children:
--     Availability, Overlay with Intents and Reconcile, Easing.
--   Wedge - the class `WedgeRecovery` of bridge/r60v_broker/wedge.py. Children: Phases, Backoff,
--     Recovery.
--   Governor - the class `DeviceGovernor` of bridge/r60v_broker/governor.py. `begin` is the
--     worker's `get`, `finish` the rest of its turn, so submissions and cancellations come between
--     the two. Children: Queue, Service (histories of events), Order, Isolation, Throttle, Drain.
--   Broker - the class `Broker` of bridge/r60v_broker/broker.py. A coroutine is a state-passing
--     computation that may raise. At each `await` the record `World` says what came back, what the
--     clock reads and what the other tasks did to the shared store meanwhile; the log keeps what
--     was asked. Broker/Poll is `_poll_loop`, `_poll_once` and `_probe_link`; Broker/Write is the
--     write-intent channel, Broker/Command the MQTT command path. Children: Poll/Cooldown,
--     Poll/Gentle, Write/Admission, Write/Retry, Write/Wait, Write/Heal; Tasks holds the rule for
--     what a coroutine keeps.
--   Client - bridge/r60v_broker/client.py: the pacing, the tries of an exchange, connecting with
--     back-off and the request. The record `Line` says what each opening and each wait comes to,
--     and the log what went over the line. Children: Retry, Backoff, Reply.
--   Emulator - the memory and `_process` of bridge/r60v_broker/emulator.py, with Python's negative
--     indices and slices and with the exceptions that end a connection. Children: Memory, Wire, and
--     Session, which is the loop of `_handle_client`; Defaults.
--   Frontend - `_read_request` and `_dispatch` of bridge/r60v_broker/tcp_frontend.py. Children:
--     Stream, Dispatch.
--   Push - the class `WsPushServer` of bridge/r60v_broker/push_server.py: its operations, a step
--     relation of what its tasks do in any order, and the frames that come in. Children: Fresh;
--     Delivery, from the store to the integration's data; Commands, from an entity's command to
--     the write intent.
--   Mqtt - what bridge/r60v_broker/mqtt_bridge.py publishes, subscribes to and routes, the topics of
--     config.py, and publisher.py. Child: Routing.
--   Integration/Snapshot, Entities, Profile, Registry, Climate - the snapshot, the decoders and
--     encoders, the pressure profiles, `ENTITIES` and the boiler thermostats of
--     custom_components/rocket_r60v/entities.py. Children: Entities/Codecs, Profile/Numbers,
--     Profile/Words, Profile/Blocks, Profile/RoundTrip, Registry/RoundTrip, Registry/Bytes,
--     Registry/LiveText, Climate/Panel, Climate/Setpoint.
--   Integration/Timer - the timer switch of switch.py. Child: Memory.
--   Integration/BridgeHealth, Coordinator, Update - the report of bridge_health.py, the state of
--     `R60VCoordinator` of coordinator.py with its cooldown and connection state, and its update
--     and write path, with what comes back at each `await` in a record `World`. Beside them
--     Connection and Mirror, and the children Update/Rest and Update/Tolerance.
--   Integration/Diagnostics - `from_json` and the fetching of bridge_health.py, the availability
--     of entity.py, and the diagnostics of sensor.py and binary_sensor.py. Child: Link.
--   Integration/Frames, Client - what is not the bridge's of protocol.py and client.py there.
--     Children: Frames/Bridge, Client/Spends, Client/Bounds, Client/Garbled.
--   Integration/Clock - the payload and the pushing of clock.py.
--   Integration/Stream - `R60VPushClient` of push_client.py. Children: Keys (`int` of decimal
--     text), Entries, Backoff.
--   Base and its children - lists, integers, dicts and results that the parts share.
--   Tests - runs of the models at concrete inputs.
--
-- Numbers, bounds and fuel. Times are whole milliseconds and temperature steps whole degrees;
-- tenths of a bar, of a second and of a degree are whole numbers of tenths. A stretch of code
-- with no `await` reads the clock once. An integer of Python is an unbounded ℤ, or a ℕ where the
-- code has only counts, indices and registry addresses. `le16` adds where the code uses `|`, as
-- the two bytes share no bit. The digits of a number, of either base, are computed on fuel of one
-- more than the number, which is enough since each digit divides it by the base. The wait for the
-- end of a cooldown and the loop that connects are on fuel, one unit for a sleep and one for an
-- attempt, and a session with the emulator on one more than the characters that its client sends,
-- of which a request takes nine at least. Every other loop is structural.
--
-- Assumed: text is ASCII, or holds the replacement character U+FFFD; a list in a push frame holds
-- integers, and a member of its `live` is a list or no iterable; what `float` and
-- `datetime.fromisoformat` make of a text is a parameter; the tuple of cooldown steps is not
-- empty; the optimistic overlay's addresses are not negative, as `apply_optimistic` makes sure;
-- closing the link and broadcasting do not raise, since both swallow what the socket raises; a
-- message counts as given to a client once it is handed to its socket.
--
-- Not modelled: the MQTT library's client and the discovery documents; the emulator's drift of
-- temperatures and its sockets, and those of the LAN front end; the reading of the configuration
-- and the setting up of the integration, its forms and the clock's schedule; the start and the end of the
-- tasks; the locks of the clients, as the models make one request at a time; names, units and
-- icons; logging and the listeners' exceptions, which are swallowed.
pub mod Base
pub mod Protocol
pub mod State
pub mod Store
pub mod Wedge
pub mod Governor
pub mod Broker
pub mod Push
pub mod Mqtt
pub mod Client
pub mod Emulator
pub mod Frontend
pub mod Integration
mod Tests
