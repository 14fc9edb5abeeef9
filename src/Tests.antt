-- ===== src/Tests.antt =====
-- Runs of the definitions at concrete inputs, and the theorems at inputs that meet their conditions.
mod Memory
mod CodedJson
mod ToyCrypto
mod TlsTests
mod DnsTests
mod SitesTests
mod NginxTests
mod StartingTests
mod IpcTests
mod EngineTests
mod ServiceTests
mod SearchTests
mod PartsTests
mod UiTests
mod EntryTests
mod CommonTests
mod ToyParts
mod MessageTests
