-- ===== src/Kernel/Load/Whole.antt =====
-- Which mount tables are read.
