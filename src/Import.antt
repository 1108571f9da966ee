-- ===== src/Import.antt =====
-- server/import: from an upload or a URL to chunks of Markdown.
pub mod Chunker
pub mod Jobs
pub mod Sniffer
pub mod Runner
