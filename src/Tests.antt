-- ===== src/Tests.antt =====
-- Runs of the model on concrete inputs, and the theorems at inputs that meet their hypotheses.
pub mod Samples
mod Timespec
mod Clock
mod Dilation
mod Proc
mod Psched
pub mod Htb
pub mod Packets
mod Classes
mod Events
mod Jiffies
mod Fork
mod Sleep
mod Hrtimer
mod Timekeeper
mod Userspace
