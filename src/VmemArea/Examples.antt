-- ===== src/VmemArea/Examples.antt =====
-- The theorem on vmemarea.c at the first page of the user area.
