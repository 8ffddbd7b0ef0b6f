-- ===== src/Kernel.antt =====
-- The code of kernel/.
pub mod Mktime
pub mod Task
pub mod Sched
pub mod Wait
pub mod Timer
pub mod Errno
pub mod Cred
pub mod Signal
pub mod Kill
pub mod Session
pub mod Alarm
pub mod Exit
pub mod Elevator
pub mod Console
pub mod Vsprintf
pub mod Tty
pub mod Fork
mod Tests
