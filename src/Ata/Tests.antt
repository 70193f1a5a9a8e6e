-- ===== src/Ata/Tests.antt =====
-- x
