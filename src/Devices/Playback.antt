-- ===== src/Devices/Playback.antt =====
-- What the playback callback takes from the ring, against what it plays.
