-- ===== src/NightRunner/Validated.antt =====
-- When planning a queue throws a TypeError.
