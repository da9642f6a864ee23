-- ===== src/Mux/State.antt =====
-- The shared state of src/raw_usbmux.rs: `MuxState`, `MuxConnection` and `ConnectionState`.
-- An `Arc<MuxConnection>` is an index into `store`, so that a client thread keeps its connection
-- when `connections` no longer names it. Mutexes are left out: each function that locks is one
-- step. `W` is the state of the `PacketWriter`.
use i_usb_bridge.Prelude.{ℕ, Bool, false, [], ◌==◌, if◌then◌else◌}
use i_usb_bridge.Prelude.Bytes.{Bytes}
use i_usb_bridge.Prelude.Table.{Table}
use i_usb_bridge.Prelude.Text.{Text}

abbrev pub proto_version : ℕ
proto_version = 0

abbrev pub proto_tcp : ℕ
proto_tcp = 6

abbrev pub mux_magic : ℕ
mux_magic = 0xfeedface

abbrev pub syn : ℕ
syn = 0x02

abbrev pub rst : ℕ
rst = 0x04

abbrev pub ack_flag : ℕ
ack_flag = 0x10

-- `SYN | ACK`
abbrev pub syn_ack : ℕ
syn_ack = 0x12

abbrev pub dev_mru : ℕ
dev_mru = 65536

pub record ConnectionState : Type 0 where
  pub connected : Bool
  pub closed : Bool
  pub refused : Bool
  pub tx_seq : ℕ
  pub tx_ack : ℕ
  pub rx_ack : ℕ
  pub rx_win : ℕ
  pub inbox : Bytes
  pub pending : Table Bytes

-- The state that `open_connection` starts from.
abbrev pub new_connection : ConnectionState
new_connection = record {
  connected = false;
  closed = false;
  refused = false;
  tx_seq = 0;
  tx_ack = 0;
  rx_ack = 0;
  rx_win = 0;
  inbox = [];
  pending = [];
}

pub record MuxConnection : Type 0 where
  pub state : ConnectionState
  pub sport : ℕ
  pub dport : ℕ

pub record MuxState (W : Type 0) : Type 0 where
  pub writer : W
  pub version : ℕ
  pub tx_seq : ℕ
  pub store : ℕ → MuxConnection
  pub allocated : ℕ
  pub connections : Table ℕ
  pub next_sport : ℕ
  pub serial : Text

abbrev pub update : {A : Type 0} → (ℕ → A) → ℕ → A → ℕ → A
update f k v j = if j == k then v else f j

-- `Result<(), io::Error>`
pub data IoResult : Type 0 where
  done : IoResult
  io_error : IoResult

-- `write_packet`: what it returns, and the writer after it.
abbrev pub WritePacket : Type 0 → Type 0
WritePacket W = W → Bytes → IoResult × W
