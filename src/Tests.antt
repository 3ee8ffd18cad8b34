-- ===== src/Tests.antt =====
-- The theorems at concrete inputs, for every part of the program.
mod Documents
mod Printer
mod OfModel
mod OfPolicy
mod OfUpdates
mod OfAttribution
mod OfCapture
mod OfDrivers
mod OfSandbox
mod OfHost
mod OfDaemon
mod OfIpc
