-- ===== src/Sys/Tests.antt =====
-- sys_sleep across the end of the counter's range.
