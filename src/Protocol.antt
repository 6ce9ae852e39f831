-- ===== src/Protocol.antt =====
-- stream_protocol.cpp: the checks on what a peer or a user sends.
pub mod Json
pub mod Depth
pub mod Utf8
pub mod Uri
pub mod Classify
