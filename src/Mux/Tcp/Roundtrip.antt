-- ===== src/Mux/Tcp/Roundtrip.antt =====
-- What `send_tcp` puts into a packet is what `feed_tcp` reads off its body.
use i_usb_bridge.Prelude.{ℕ, ◌<◌, ◌≡◌, some, arith}
use i_usb_bridge.Prelude.Bytes.{Bytes, u16_mod, u32_mod}
use i_usb_bridge.Mux.State.{MuxConnection}
use i_usb_bridge.Mux.Tcp.{parse_segment, encode_segment}

-- The body that `send_tcp` builds is read back by `feed_tcp` field by field: the destination port,
-- both sequence numbers, the flags, the window of 131072 bytes and the payload, if each number
-- fits its field.
pub parse_segment-encode_segment :
    (conn : MuxConnection) (flags : ℕ) (payload : Bytes)
    → conn.dport < u16_mod
    → conn.state.tx_seq < u32_mod
    → conn.state.tx_ack < u32_mod
    → parse_segment (encode_segment conn flags payload)
      ≡ some (record {
        dport = conn.dport;
        seq = conn.state.tx_seq;
        ack = conn.state.tx_ack;
        flags = flags;
        win = 131072;
        payload = payload;
      })
unfolding parse_segment encode_segment
parse_segment-encode_segment conn flags payload hd hs ha = ground arith
