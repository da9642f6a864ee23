-- ===== src/Lib.antt =====
-- iUsbBridge: control of an iPhone over USB or Wi-Fi, for a desktop program that sends frames of
-- touches, keys, buttons and clipboard commands. This library models the Rust program.
--
-- Mux models src/raw_usbmux.rs, the usbmux protocol over raw USB packets:
--   Mux/State    `MuxState`, `MuxConnection`, `ConnectionState`, and the constants
--   Mux/Serial   `serial_matches`, and `same_udid` of src/main.rs
--   Mux/Packet   `version_payload`, `send_packet`, and a round of `feed_packets`
--   Mux/Tcp      `feed_tcp` and `send_tcp`
--   Mux/Feed     `feed_packets`
--   Mux/Open     `open_connection`
--   Mux/Bridge   `bridge_stream`
--   Mux/Plist, Mux/Frame, Mux/Client   the replies, `read_plist_frame`, `write_frame`,
--     `read_pair_record`, and the requests of `handle_client`; in the child Serve its loop, with the
--     writes of its replies, and the rest of a `Connect`
-- Session models the sessions of src/main.rs:
--   Session/Errors      the tests on error texts
--   Session/Device      the calls of the idevice crate, as a record that its clients take
--   Session/Reconnect   `release_all`, `reconnect_direct_session`, `recover_hid_session`,
--     `connect_session_with_ddi_recovery`
--   Session/System      the other calls of the idevice and nusb crates and of the machine
--   Session/App         `RAW_CAPTURE_MUX` and the events written, over a `World`
--   Session/Event       `Event`
--   Session/Args        the command line and the paths made of it
--   Session/Provider    `device_provider`, `clear_raw_capture_mux`
--   Session/Connect     `connect_session`, `connect_hid_session`, `connect_universal_hid`,
--     `connect_session_from_transport`, `start_media_gate`, `require_main_touchscreen`
--   Session/Pairing     `remote_pairing_candidates`, `remote_pairing_transport`
--   Session/Provision   `provision_remote_pairing`, `enable_wifi_sync`
--   Session/Whole       the record of Session/Device, filled with these functions
-- Startup models `main` of src/main.rs before the loop:
--   Startup/Report      how a start that fails is reported
--   Startup/Wireless    the wireless branch, `try_connect_existing_wireless_hid`,
--     `prepare_wireless_personalized_ddi`
--   Startup/Wired       the wired branch
--   Startup/Launch      the arguments that end the program, the start, and `Ready`
-- Image models the Personalized developer disk image of src/main.rs:
--   Image/Disk          the file system, the HTTP client and the formats, as records
--   Image/Download      `git_blob_sha1`, `http_json`, `download_github_blob`
--   Image/Cache         `valid_cached_ddi`, `verify_local_personalized_ddi`
--   Image/Publish       `ensure_personalized_ddi`
--   Image/Mount         `is_personalized_ddi_entry`, `mount_local_ddi`
-- Input models the loop of `main` in src/main.rs:
--   Input/Message    `InputFrame`, `InputPoint`, `InputMessage`, `read_frame`
--   Input/Slots      `allocate_slot`
--   Input/Touch      the checks and contacts of a touch batch
--   Input/Keyboard   `set_keyboard_state` and the chords
--   Input/Clipboard  `paste_text`, the confirmed write, `read_clipboard_text`; in its child Tasks
--     `copy_selection`, `emit_clipboard_snapshot` and `monitor_clipboard`
--   Input/State      the local variables of the loop
--   Input/Recovery   `discard_stale_input_frames` and the recovery after a failed send
--   Input/Handlers   one handler for each kind of message
--   Input/Loop       `select!`, the rotation, the health checks, the clean-up
-- Prelude holds what the parts share.
--
-- The parts meet in four places. A client's request to `handle_client` ends in `open_connection`
-- and `bridge_stream`, which send through `send_tcp` and wait for what `feed_tcp` puts into the
-- connection. The loop calls the session only through `Device`, which Session/Whole fills. A handler
-- whose send fails goes through Input/Recovery to `recover_hid_session`. A start fetches or checks
-- the image, opens a session over a provider or a RemotePairing tunnel, and mounts the image where
-- the session fails.
--
-- How the program is modelled:
--   * Numbers are natural; where the source wraps, `% 2 ^ 16` and `% 2 ^ 32` are written out, and a
--     cast that truncates is one too. Text is the list of its code points.
--   * A hash map is a list of pairs, a hash set a list. What depends on the order of iteration,
--     such as the order of contacts in a report, is that of the list.
--   * An `Arc<MuxConnection>` is an index into a store. Mutexes are left out: the code under one
--     lock is one step. What the reader thread does while a function waits is given to it as a list;
--     the threads of other clients do not run while `open_connection` or `bridge_stream` does.
--   * The loop of `handle_client` is given what its socket reads and the stop flag as a list, and
--     which writes succeed as a test on the replies written before. Whether a socket's timeouts can
--     be set is a flag.
--   * Calls of the idevice crate and of the machine are fields of `Device` over a state `World`. The
--     packet writer, the XML and JSON readers, the pair record files and the coordinates' arithmetic
--     are parameters in the same way. A timeout is one more outcome of a call, `elapsed`.
--   * The provider, tunnel, clients and session obtained last are part of `World`; a call that opens
--     one returns only its identifier or mode. A call that fails may have changed `World`.
--   * What mDNS delivers within the fifteen seconds is a list whose end is the deadline.
--   * Writing an event to stdout always succeeds. The status events that Session/Reconnect writes
--     between its attempts are left out; those of the start are kept.
--   * The loop records the background tasks when they start, the clipboard monitor included, and does
--     not take the finished ones off the record again. What a task does is a function of its own,
--     which is not interleaved with the loop.
--   * Session time and the timers' resets are left out: a timer wakes the loop when a list of wakes
--     says so, and the guards of `select!` are checked then.
-- Fuel: a round of `feed_loop` takes at least eight bytes off its input, so the number of bytes is
-- enough; a round of `drain` takes an entry out of `pending`, so its length is enough; a chunk of a
-- download has a byte at least, so the size of the asset is enough.
--
-- Not modelled: threads and sockets, USB endpoints, the interleaving of the background tasks with the
-- loop, the tasks that drain the media sockets, and the programs in other languages.
pub mod Prelude
pub mod Mux
pub mod Session
pub mod Startup
pub mod Image
pub mod Input
