-- ===== src/Tests.antt =====
-- Runs of the models at concrete inputs, and the theorems at inputs that meet their hypotheses.
-- Runs of the models at concrete inputs, and the theorems at inputs that meet their hypotheses.
mod Bitmaps
mod Handlers
mod Inodes
mod Kernels
mod Links
mod Memory
mod Pages
mod Tables
mod Texts
