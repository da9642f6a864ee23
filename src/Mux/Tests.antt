-- ===== src/Mux/Tests.antt =====
-- Concrete runs of the usbmux transport of src/raw_usbmux.rs.
use i_usb_bridge.Prelude.{
  ℕ, ◌+◌, ◌%◌, ◌≡◌, refl, true, false, Option, none, some, List, [], ◌∷◌, ◌++◌, ◌⊎◌, Bool, ltb,
  arith, length, take, drop, inl, inr,
}
use i_usb_bridge.Prelude.Bytes.{Bytes, u32_mod}
use i_usb_bridge.Prelude.Table.{lookup}
use i_usb_bridge.Prelude.Text.{Text, text}
use i_usb_bridge.Mux.State.{
  MuxConnection, MuxState, done, WritePacket, new_connection, syn_ack, ack_flag,
}
use i_usb_bridge.Mux.Packet.{encode_packet, packet_length, next_packet, packet}
use i_usb_bridge.Mux.Packet.Roundtrip.{next_packet-encode_packet}
use i_usb_bridge.Mux.Tcp.{Segment, receive, drain, encode_segment, parse_segment}
use i_usb_bridge.Mux.Tcp.Roundtrip.{parse_segment-encode_segment}
use i_usb_bridge.Mux.Tcp.History.{Arrival, arrives, reads, run, run-delivers_prefix}
use i_usb_bridge.Mux.Tcp.Pieces.{piece_at}
use i_usb_bridge.Mux.Tcp.Complete.{HasNoGap, drain-HasNoGap}
use i_usb_bridge.Mux.Tcp.Delivery.{Arrived, run-delivers_whole}
use i_usb_bridge.Mux.Feed.{feed_packets}
use i_usb_bridge.Mux.Feed.Chunks.{feed_packets-append, in_sync}
use i_usb_bridge.Mux.Open.{Reader, register, open_connection}
use i_usb_bridge.Mux.Open.Ports.{open_connection-registered}
use i_usb_bridge.Mux.Bridge.{Bridge, Turn, SocketRead, timed_out, end_of_file, bridge_stream}
use i_usb_bridge.Mux.Bridge.Ports.{Ended, bridge_stream-Ended}
use i_usb_bridge.Mux.Serial.{is_ascii_hexdigit, serial_matches, same_udid}
use i_usb_bridge.Mux.Serial.Agree.{serial_matches-same_udid}
use i_usb_bridge.Mux.Plist.{Value, Dictionary, string, dictionary, end, field, result}
use i_usb_bridge.Mux.Frame.{frame, read_plist_frame, write_frame}
use i_usb_bridge.Mux.Frame.Roundtrip.{read_plist_frame-write_frame}
use i_usb_bridge.Mux.Client.{hang_up, handle_request}
use i_usb_bridge.Mux.Client.Requests.{connect_request, handle_request-connect}
use i_usb_bridge.Mux.Client.Serve.{Written}
use i_usb_bridge.Mux.Client.Answered.{Answered}
use i_usb_bridge.Mux.Open.Distinct.{register_all, register_keeps}

-- A device that answers SYN|ACK at sequence number 2 ^ 32 - 2, and then sends 1, 2 and 3 in two
-- pieces, the second one first and the first one twice.
abbrev pieces : List Bytes
pieces = (1 ∷ 2 ∷ []) ∷ (3 ∷ []) ∷ []

abbrev segment : ℕ → ℕ → Bytes → Segment
segment seq flags payload = record {
  dport = 1;
  seq = seq;
  ack = 1;
  flags = flags;
  win = 512;
  payload = payload;
}

abbrev hello : Segment
hello = segment 0xffff_fffe syn_ack []

abbrev history : List Arrival
history =
    arrives (segment 1 ack_flag (3 ∷ []))
    ∷ arrives (segment 0xffff_ffff ack_flag (1 ∷ 2 ∷ []))
    ∷ reads
    ∷ arrives (segment 0xffff_ffff ack_flag (1 ∷ 2 ∷ []))
    ∷ []

every_piece :
    (off : ℕ) (p : Bytes) → piece_at pieces off ≡ some p → Arrived pieces 0xffff_ffff off history
unfolding piece_at
every_piece off p h = at_start (ground arith)
  where
    at_start : (off ≡ 0) ⊎ (off ≡ 2) → Arrived pieces 0xffff_ffff off history
    at_start (inl e) = inr (inl (omega arith))
    at_start (inr e) = inl (omega arith)

run-delivers_whole_example :
    (run ([], (receive new_connection hello).0) history).0
      ++ (run ([], (receive new_connection hello).0) history).1.inbox
    ≡ 1 ∷ 2 ∷ 3 ∷ []
unfolding piece_at
run-delivers_whole_example =
    run-delivers_whole pieces new_connection hello history (omega arith)
      (omega arith, (omega arith, tt)) refl refl refl refl
      (
        record { offset = 2; at = refl; numbered = refl; no_reset = refl },
        (
          record { offset = 0; at = refl; numbered = refl; no_reset = refl },
          (tt, (record { offset = 0; at = refl; numbered = refl; no_reset = refl }, tt)),
        ),
      )
      every_piece

run-delivers_prefix_example :
    ((rest : Bytes) × (1 ∷ 2 ∷ 3 ∷ 4 ∷ []
        ≡ ((run ([], (receive new_connection hello).0) history).0
            ++ (run ([], (receive new_connection hello).0) history).1.inbox)
          ++ rest))
    × ((run ([], (receive new_connection hello).0) history).1.tx_ack
        ≡ (0xffff_ffff
            + length (
                (run ([], (receive new_connection hello).0) history).0
                ++ (run ([], (receive new_connection hello).0) history).1.inbox))
          % u32_mod)
run-delivers_prefix_example =
    run-delivers_prefix (1 ∷ 2 ∷ 3 ∷ 4 ∷ []) new_connection hello history (omega arith) refl refl
      refl refl
      (
        inr (record {
          offset = 2;
          rest = 4 ∷ [];
          numbered = refl;
          within = omega arith;
          here = refl;
        }),
        (
          inr (record {
            offset = 0;
            rest = 3 ∷ 4 ∷ [];
            numbered = refl;
            within = omega arith;
            here = refl;
          }),
          (
            tt,
            (
              inr (record {
                offset = 0;
                rest = 3 ∷ 4 ∷ [];
                numbered = refl;
                within = omega arith;
                here = refl;
              }),
              tt,
            ),
          ),
        ),
      )

drain-HasNoGap_example :
    HasNoGap
      (drain 2 (record new_connection { tx_ack = 5; pending = (6, 8 ∷ []) ∷ (5, 7 ∷ []) ∷ [] }))
drain-HasNoGap_example =
    drain-HasNoGap 2
      (record new_connection { tx_ack = 5; pending = (6, 8 ∷ []) ∷ (5, 7 ∷ []) ∷ [] }) (omega arith)

-- A writer that keeps the packets it is given.
abbrev keep_packets : WritePacket (List Bytes)
keep_packets w p = (done, w ++ (p ∷ []))

abbrev mux : MuxState (List Bytes)
mux = record {
  writer = [];
  version = 2;
  tx_seq = 0;
  store = λ id. record { state = new_connection; sport = 1; dport = 62078 };
  allocated = 1;
  connections = (1, 0) ∷ [];
  next_sport = 2;
  serial = text "0000-AB";
}

-- The packet of the answer SYN|ACK, cut in the middle of its header.
abbrev answer : Bytes
answer = encode_packet 2 0 6 (
    encode_segment
      (record {
        state = record new_connection { tx_seq = 99; tx_ack = 1 };
        sport = 62078;
        dport = 1;
      })
      syn_ack [])

feed_packets-append_example :
    feed_packets keep_packets mux (take 10 answer ++ drop 10 answer)
    ≡ feed_packets keep_packets
        (feed_packets keep_packets mux (take 10 answer)).0
        ((feed_packets keep_packets mux (take 10 answer)).1 ++ drop 10 answer)
unfolding in_sync next_packet packet_length encode_packet encode_segment
feed_packets-append_example =
    feed_packets-append keep_packets mux (take 10 answer) (drop 10 answer) refl

next_packet-encode_packet_example :
    next_packet 2 (encode_packet 2 7 6 (1 ∷ 2 ∷ []) ++ (9 ∷ [])) ≡ packet 6 (1 ∷ 2 ∷ []) (9 ∷ [])
next_packet-encode_packet_example =
    next_packet-encode_packet 2 7 6 (1 ∷ 2 ∷ []) (9 ∷ []) (omega arith) (omega arith)

abbrev answering : MuxConnection
answering = record {
  state = record new_connection { tx_seq = 9; tx_ack = 4 };
  sport = 1;
  dport = 62078;
}

parse_segment-encode_segment_example :
    parse_segment (encode_segment answering ack_flag (1 ∷ []))
    ≡ some
        (record { dport = 62078; seq = 9; ack = 4; flags = 0x10; win = 131072; payload = 1 ∷ [] })
parse_segment-encode_segment_example =
    parse_segment-encode_segment answering ack_flag (1 ∷ []) (omega arith) (omega arith)
      (omega arith)

abbrev no_answer : Reader (List Bytes)
no_answer = record { mux = mux; buffer = [] }

-- The device never answers.
open_connection-registered_example :
    lookup 2 (open_connection keep_packets no_answer 62078 ([] ∷ [] ∷ [])).1.mux.connections
    ≡ some 1
open_connection-registered_example =
    open_connection-registered keep_packets no_answer 62078 ([] ∷ [] ∷ [])

serial_matches-same_udid_example :
    serial_matches (text "00-aB") (text "00Ab") ≡ same_udid (text "00-aB") (text "00Ab")
unfolding is_ascii_hexdigit
serial_matches-same_udid_example =
    serial_matches-same_udid (text "00-aB") (text "00Ab") (refl, (refl, (refl, (refl, (refl, tt)))))
      (refl, (refl, (refl, (refl, tt))))

-- An XML writer and reader that know one dictionary.
abbrev hello_dictionary : Dictionary
hello_dictionary = field (text "Name") (string (text "x")) end

abbrev to_xml : Value → Option Bytes
to_xml v = some (60 ∷ 62 ∷ [])

abbrev from_xml : Bytes → Option Value
from_xml body = some (dictionary hello_dictionary)

read_plist_frame-write_frame_example :
    (bytes : Bytes) × (write_frame to_xml 3 hello_dictionary ≡ some bytes)
    × (read_plist_frame from_xml (bytes ++ (5 ∷ [])) ≡ frame 3 hello_dictionary (5 ∷ []))
read_plist_frame-write_frame_example =
    read_plist_frame-write_frame from_xml to_xml 3 hello_dictionary (60 ∷ 62 ∷ []) (5 ∷ [])
      (omega arith) refl refl (omega arith)

abbrev no_file : Text → Option Bytes
no_file name = none

handle_request-connect_example :
    handle_request no_file (text "AB") (connect_request 2 62078) ≡ (result 2 ∷ [], hang_up)
handle_request-connect_example = handle_request-connect no_file (text "AB") 2 62078 (omega arith)

-- A writer that fails after two replies.
abbrev two_writes : Written → Bool
two_writes written = ltb (length written) 2

abbrev three_requests : List (ℕ × Dictionary)
three_requests =
    (7, field (text "MessageType") (string (text "Pair")) end)
    ∷ (8, field (text "MessageType") (string (text "Listen")) end)
    ∷ (9, field (text "MessageType") (string (text "ListDevices")) end)
    ∷ []

-- The counter wraps between the two connections.
register_keeps_example :
    lookup 65535
      (register_all
        (register (record mux { next_sport = 65535 }) 62078)
        (62078 ∷ 1 ∷ [])).connections
    ≡ some 1
unfolding register_all register
register_keeps_example =
    register_keeps (record mux { next_sport = 65535 }) 62078 (62078 ∷ 1 ∷ []) (omega arith)
      (omega arith)

-- The client closes its socket in the second turn.
abbrev turn : SocketRead → Turn
turn read = record { stop = false; received = []; read = read; window_waits = []; write_ok = true }

abbrev bridge : Bridge (List Bytes)
bridge = record { reader = no_answer; client = [] }

bridge_stream-Ended_example :
    Ended keep_packets 0 bridge
      (bridge_stream keep_packets 0 true (turn timed_out ∷ turn end_of_file ∷ []) bridge)
bridge_stream-Ended_example =
    bridge_stream-Ended keep_packets 0 true (turn timed_out ∷ turn end_of_file ∷ []) bridge
