-- ===== src/Shutdown/Insist.antt =====
-- Lemmas on a further signal, src/shutdown.rs.
