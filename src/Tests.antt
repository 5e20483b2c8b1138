-- ===== src/Tests.antt =====
-- Runs of the models on concrete inputs, and the theorems at inputs that meet their hypotheses.
mod Numbers
mod DramList
mod NvmList
mod Buffer
mod Log
mod Pool
mod Routes
mod Driver
mod Dram
