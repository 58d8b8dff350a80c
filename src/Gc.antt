-- ===== src/Gc.antt =====
-- arq_writer/retention.py: `prune_records`, `gc_orphan_blobs` and `apply_retention`.
pub mod Walk
pub mod Collect
pub mod Sweep
pub mod Prune
pub mod Deletes
pub mod SweepDeletes
pub mod Closed
pub mod Noted
pub mod OnRecords
pub mod Collected
pub mod Live
pub mod Places
pub mod Meet
pub mod Complete
pub mod Finds
pub mod Same
pub mod Transfer
pub mod Computer
pub mod Written
pub mod Spare
pub mod Keeps
pub mod Total
pub mod Ends
pub mod Terminates
pub mod OnlyObjects
pub mod PruneKeeps
pub mod PruneRecords
pub mod Apply
pub mod Disk
pub mod Sample
pub mod SamplePlaces
pub mod SampleReads
pub mod SampleSound
mod Examples
mod PruneExamples
