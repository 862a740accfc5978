-- ===== src/Frame/Text/RoundTrip.antt =====
-- The text of `frame_to_string` (software/src/core/bus_frame.cpp), read back by Frame/Text/Read.
use bus_test_platform.Prelude.{◌>>=◌}
