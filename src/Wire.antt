-- ===== src/Wire.antt =====
-- The byte formats that the SDK shares with the DSP daemon (detail/dsp_wire.hpp): little-endian
-- words and the messages on the socket.
pub mod Words
pub mod Dsp
mod Tests
