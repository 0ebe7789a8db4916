-- ===== src/Http2.antt =====
-- proxy/cf_h2.py and proxy/h2_transport.py: the HTTP/2 transport. Native packets on both sides, the
-- room that lanes and channels have, the history of packets that may be sent again, and windows.
pub mod Packet
pub mod Channel
pub mod History
pub mod Replay
pub mod Window
