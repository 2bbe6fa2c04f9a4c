-- ===== src/Tests.antt =====
-- Runs at concrete inputs, of src/unix/lwt_unix_stubs.c and src/unix/unix_c.
mod NotifyTests
mod HostTests
mod JobTests
mod PoolTests
mod SignalTests
mod TermiosTests
mod StubTests
mod TransferTests
mod VectorsTests
mod CallsTests
mod QueryTests
mod LibevTests
mod LookupTests
mod MessageTests
