-- ===== src/FormatProcessor.antt =====
-- internal/formatprocessor: what happens to a stream's units and packets on their way through.
mod H264
mod H265
mod Process
mod Examples
