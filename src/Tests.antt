-- ===== src/Tests.antt =====
-- The theorems at concrete inputs, and runs of the definitions.
mod DiskRuns
mod SuperblockRuns
mod BitmapRuns
mod InodeRuns
mod DirectoryRuns
mod FsRuns
mod RootRuns
mod CreateRuns
mod UnlinkRuns
mod SafetyRuns
mod MountRuns
mod MainRuns
mod WriteRuns
mod PathRuns
