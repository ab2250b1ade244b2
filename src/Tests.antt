-- ===== src/Tests.antt =====
-- Runs on small inputs, and the theorems at concrete inputs. The crates are those of `Setting`.
mod Setting
mod Parsing
mod Files
mod Opening
mod Directories
mod Programs
mod Listing
