-- ===== src/Lib.antt =====
-- pihub: a remote-control hub. A USB receiver's keys go through a keymap to a Bluetooth dongle
-- on a serial port, to flows that switch the TV and the speaker, or to the speaker itself.
--
-- Prelude: Boolean tests, lists, texts, dicts, integers and JSON values as Python has them.
-- InitialStatus (pihub/initial_status.py): whether a device has given its first reading.
-- Validation (pihub/validation.py): milliseconds in a keymap.
-- Settings (pihub/settings.py): Values is SettingsData, Validate _validate_payload, Store loading and saving.
-- Checks, Valid, Roundtrip, Loading and Playable hold the proofs; Playable joins settings and slots.
-- History (pihub/history.py, HistoryStore): Store has the bounded lists and the changes of reports in them, Writer the
-- writer thread beside the callers, as a step relation. Log and Saving hold the proofs.
-- Airplay (pihub/apple_tv_airplay.py): Flags reads the flags' text, State is AppleTvAirPlay. Signals has the
-- step relation and the proofs.
-- Reader (pihub/unifying_reader.py): Filter turns an input device's events into edges, Loop is UnifyingReader
-- with its queue and outer loop, Steps their step relation. Edges and Schedule hold the proofs.
-- Tv (pihub/samsung_tv.py, TvController): Presence has what is known of the TV and how discovery and
-- probes change it, PowerOff power_off, PowerOn power_on with its key worker. OneKey has the step relation;
-- it, OffKey and FirstReading hold the proofs. What the network answers is an argument.
-- AudioPro (pihub/audiopro_speaker.py, AudioProSpeaker): Packet has the packets and the read loop, Asking when the
-- full status is asked for, State the driver's state with _apply_updates and the listen signal, Payloads
-- _on_payload and its handlers, Commands the commands over TCP and the end of the link, HttpCommands those of the
-- HTTP API, Multiroom native multiroom, Link start, stop, a connection cycle and request_refresh. Ending, Framing,
-- Hints, Deadline, Signals, Mute, Leaving, Refresh, Consistent and Reach hold the proofs. How sends and requests
-- end is an argument.
-- Soundbar (pihub/samsung_soundbar.py, SamsungSoundbar): State has what AirPlay and Cast report and what follows from
-- it, with the events that change it; Heard tells the last readings from the events alone; Tracks and Signals hold the
-- proofs.
-- Slots (pihub/slots.py): what the number keys and the listen flow play; Listen has its proof.
-- Ble (pihub/ble_dongle.py): Frames encodes keys as reports and compiles a mode's bindings; Queue has the
-- bounded queues; Link is the state of BleDongleLink and the operations that send; Events and
-- Rx take in what the dongle sends, line by line; Macro has run_macro and the power macros. Link/Invariant,
-- Queue/Bounds, Payloads, Release, Compiled and Rx/Lines hold the proofs.
-- Dispatcher (pihub/dispatcher.py): State has the bindings and the tasks (repeats, holds, the
-- speaker's queue) as data with due times in milliseconds, Actions what an action does, Edges key edges
-- and what tasks do when due; Speaker is what the speaker's worker does with a job, Keymap the checks of
-- keymap.json. Rules, Timing, Reach, Calls, Presses, Routing, Accepted and Direct hold the proofs; Direct joins the
-- keymap, the dispatcher and the link.
-- Flows (pihub/flows.py, and the step reports of pihub/history.py): Actions turns a step's action
-- into the one call it makes on a device, Steps is FlowContext.step and settle_background, Table the
-- flows. Report and Breaks hold the proofs. How devices answer is a parameter (`World`), one for each step.
-- Runtime (pihub/runtime.py): State is RuntimeEngine, Modes has start, the start-up check and
-- set_mode, Sequences run_sequence in two halves (to the start of the flow's task, and from its
-- end), device-state changes and commands. Invariant, Ending, Reach, Running and Restart hold the
-- proofs.
-- The engine binds the dispatcher's modes, and takes the target modes from Flows; key handling
-- leaves the bindings as the engine set them (Dispatcher.Steady).
-- Examples has small runs of each part.
--
-- Tasks of the event loop are data, and orders in which they run are sequences of steps of a
-- relation (Ble.Link.Invariant.Step, Dispatcher.Reach.Step, Runtime.Reach.Step,
-- History.Writer.Step, Airplay.Signals.Step, Reader.Steps.Step, Tv.OneKey.Step,
-- AudioPro.Reach.Step) or events of a step function (AudioPro.Asking, Soundbar.State). All
-- functions are structural recursion, two of them on fuel: Reader.Filter.digits_of is called with
-- one more than the number it writes, which has no more digits than that;
-- AudioPro.Packet.take_packets with one more than the bytes of the buffer, of which each round that
-- goes on takes at least twenty (AudioPro.Ending). Queue bounds (512 payloads, 4 speaker jobs, 512
-- bytes a line) are the source's. Python's numbers are unbounded; where the source masks to 16
-- bits, so does the model.
--
-- Not modelled: the serial port, evdev, sysfs, zeroconf and whether an address matches, files and
-- their JSON text (their values are), how a history entry is written as JSON, history's close, log
-- lines but the reasons of the speaker's warnings, wall-clock times and the jitter of waits,
-- cancellation of tasks from outside, the Frame TV, the commands of the soundbar, the speakers'
-- sockets and protocols below their messages, the TV's websocket and discovery sockets, the status
-- page, configuration, the watchdog, the HTTP server and the firmware. Names of key codes, what the
-- speaker's object has under a name and how its calls end, and Python's str() of a value that is
-- not a text (`str_of`), are parameters.
pub mod Prelude
pub mod InitialStatus
pub mod Validation
pub mod Ble
pub mod Reader
pub mod Tv
pub mod AudioPro
pub mod Soundbar
pub mod Dispatcher
pub mod Slots
pub mod Settings
pub mod Flows
pub mod History
pub mod Airplay
pub mod Runtime
pub mod Examples
