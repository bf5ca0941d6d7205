-- ===== src/Tests.antt =====
-- The theorems at concrete inputs.
mod Threads
mod Recording
mod Queue
mod Schema
mod Recorders
mod Collector
mod Camera
mod Fleet
mod Settings
mod Export
mod Depth
mod Program
mod Episode
mod EndToEnd
mod Wire
mod Subscriber
