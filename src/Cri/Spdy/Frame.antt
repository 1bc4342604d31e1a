-- ===== src/Cri/Spdy/Frame.antt =====
-- `enum Frame` of crates/cri/src/spdy.rs, and the constants of the protocol.
use containerd_rs.Base.{ℕ, List, Bytes}

-- Name/value pairs, `Vec<(String, String)>`.
abbrev pub Headers : Type 0
Headers = List (Bytes × Bytes)

-- The fields stand in the order of the source: `stream_id` first, then `flags` where there are any.
-- `data` is a reserved word, so `Frame::Data` is `data_frame`.
pub data Frame : Type 0 where
  syn_stream : ℕ → ℕ → Headers → Frame
  syn_reply : ℕ → ℕ → Headers → Frame
  rst_stream : ℕ → ℕ → Frame
  settings : List (ℕ × ℕ) → Frame
  ping : ℕ → Frame
  go_away : ℕ → ℕ → Frame
  headers : ℕ → ℕ → Headers → Frame
  window_update : ℕ → ℕ → Frame
  data_frame : ℕ → ℕ → Bytes → Frame

abbrev pub type_syn_stream : ℕ
type_syn_stream = 1

abbrev pub type_syn_reply : ℕ
type_syn_reply = 2

abbrev pub type_rst_stream : ℕ
type_rst_stream = 3

abbrev pub type_settings : ℕ
type_settings = 4

abbrev pub type_ping : ℕ
type_ping = 6

abbrev pub type_goaway : ℕ
type_goaway = 7

abbrev pub type_headers : ℕ
type_headers = 8

abbrev pub type_window_update : ℕ
type_window_update = 9

abbrev pub spdy_version : ℕ
spdy_version = 3

abbrev pub flag_fin : ℕ
flag_fin = 1

abbrev pub settings_initial_window_size : ℕ
settings_initial_window_size = 7

abbrev pub big_window : ℕ
big_window = 0x7fff_ffff
