-- ===== src/Tests.antt =====
-- Runs of the definitions, and the theorems at concrete inputs.
mod Codecs
mod ProtocolTests
mod SyncTests
mod NetlayerTests
mod UtilsTests
mod CmdTests
mod MonitorTests
mod Worlds
mod DiskTests
mod TransferTests
mod HandlerTests
mod ConversationTests
