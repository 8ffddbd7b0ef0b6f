-- ===== src/Fs.antt =====
-- The code of fs/.
pub mod Pipe
pub mod Files
pub mod Buffer
pub mod Bitmap
pub mod Bmap
pub mod Namei
mod Tests
