-- ===== src/Tests.antt =====
-- Runs of the definitions on small inputs, and the theorems at concrete inputs.
mod Records
mod Buffers
mod Runtime
mod Values
mod Files
mod Trees
mod Writers
mod Queries
mod Traces
