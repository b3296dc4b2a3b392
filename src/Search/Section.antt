-- ===== src/Search/Section.antt =====
-- The arithmetic of the sections.
