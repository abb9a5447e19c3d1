-- ===== src/Auth/Sessions/Replay.antt =====
-- A refresh token that is used a second time.
