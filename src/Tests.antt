-- ===== src/Tests.antt =====
-- Concrete requests, plans, sweeps, connections and files, runs of the definitions on them, and instances of the
-- theorems.
mod Data
mod Policies
mod Sweeps
mod Cruises
mod Runs
mod Devices
mod Missions
mod Frames
mod Scans
mod Recognitions
mod Workers
