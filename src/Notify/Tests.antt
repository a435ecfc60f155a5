-- ===== src/Notify/Tests.antt =====
-- A tool name that tries to mention a channel, and the last wait.
