-- ===== src/Export.antt =====
-- The exporters (src/export, include/export) and the tools that run them (tools): they read back
-- what the camera recorders have written.
pub mod Line
pub mod DepthLine
pub mod OldLayout
pub mod Reading
pub mod ColorIndex
pub mod Keyframe
pub mod ColorReading
pub mod ColorCut
pub mod ImageReading
pub mod DepthIndex
pub mod DepthReading
pub mod Mp4
pub mod Slices
pub mod DepthRuns
pub mod DepthRecorded
pub mod ImageRun
pub mod ImageRecorded
pub mod Names
pub mod Worker
pub mod Tools
pub mod EndToEnd
pub mod Wire
pub mod DepthComplete
