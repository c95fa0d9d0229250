-- ===== src/Chunking.antt =====
-- s13code/core/memory/chunking.py: the texts, the Markdown structures, and the chunks of a document.
pub mod Words
pub mod Markdown
pub mod Pieces
pub mod Segments
pub mod Ends
mod Cut
pub mod Cover
mod Tests
