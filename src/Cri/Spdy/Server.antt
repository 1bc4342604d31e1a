-- ===== src/Cri/Spdy/Server.antt =====
-- The other calls on a connection of crates/cri/src/spdy.rs: what the consumers of streams send, and
-- `serve`, which announces a large window and starts the read loop.
use containerd_rs.Base.{ℕ, List, [], ◌∷◌, Bytes, text, Bool, true, false, Option, if◌then◌else◌}
use containerd_rs.Cri.Spdy.Frame.{
  rst_stream, settings, go_away, data_frame, flag_fin, settings_initial_window_size, big_window,
}
use containerd_rs.Cri.Spdy.Nv.{header}
use containerd_rs.Cri.Spdy.Codec.{NvCodec}
use containerd_rs.Cri.Spdy.Conn.{SpdyStream, World, Turn, returned, write, read_loop}

abbrev pub header_stream_type : Bytes
header_stream_type = text "streamType"

-- `SpdyStream::stream_type`
unfoldable pub stream_type : SpdyStream → Option Bytes
stream_type s = header s.headers header_stream_type

module _ (codec : NvCodec) (write_ok send_ok : ℕ → Bool) where
  -- `SpdyWriter::send_data`, `rst` and `goaway`: whether the write succeeded, and the world behind it.
  unfoldable pub send_data : ℕ → Bool → Bytes → World codec → Bool × World codec
  send_data id fin payload w =
      write codec write_ok send_ok (data_frame id (if fin then flag_fin else 0) payload) w

  unfoldable pub rst : ℕ → ℕ → World codec → Bool × World codec
  rst id status w = write codec write_ok send_ok (rst_stream id status) w

  unfoldable pub goaway : ℕ → World codec → Bool × World codec
  goaway last_good_id w = write codec write_ok send_ok (go_away last_good_id 0) w

  abbrev pub served : List Bytes → codec.Inflate → Bool × World codec → Turn codec
  served chunks fresh (false, w) = returned w
  served chunks fresh (true, w) = read_loop codec write_ok send_ok chunks fresh w

  -- `serve`, and the read loop that it spawns where the SETTINGS frame is written.
  unfoldable pub serve : List Bytes → codec.Inflate → World codec → Turn codec
  serve chunks fresh w =
      served chunks fresh (
        write codec write_ok send_ok (settings ((settings_initial_window_size, big_window) ∷ [])) w)
