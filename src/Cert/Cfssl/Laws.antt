-- ===== src/Cert/Cfssl/Laws.antt =====
-- Calls that are made again while CFSSL's database is locked.
