-- ===== src/Tests.antt =====
-- Runs at fixed inputs, by the part they exercise.
mod Codec
mod Messages
mod Frames
mod Pool
mod Bounds
mod Gateway
mod Difficulty
mod Window
mod Bitcoin
mod Blocks
mod Accounting
mod Headers
mod Withholding
