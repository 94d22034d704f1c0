-- ===== src/Stats/Laws.antt =====
-- What the counters can be, whatever is reported.
use smartbackup_fs.Base.{◌<◌, ◌≡◌, refl, List, [], ◌∷◌, arith}
use smartbackup_fs.Stats.{StorageStats, Event, report, report_all, dedup_ratio, no_stats}

report-same :
    (e : Event) (s : StorageStats)
    → s.unique_blocks ≡ s.total_blocks
    → (report e s).unique_blocks ≡ (report e s).total_blocks
unfolding report
report-same (Event.dedup_hit saved) s h = h
report-same Event.unique_added s h = omega (arith, h)
report-same Event.unique_removed s h = omega (arith, h)
report-same (Event.compression_done raw size) s h = h

report_all-same :
    (es : List Event) (s : StorageStats)
    → s.unique_blocks ≡ s.total_blocks
    → (report_all es s).unique_blocks ≡ (report_all es s).total_blocks
unfolding report_all
report_all-same [] s h = h
report_all-same (e ∷ es) s h = report_all-same es (report e s) (report-same e s h)

-- Whatever is reported from the start on, the unique blocks are all blocks, as a hit is not counted as a block:
-- the fraction of unique blocks is 1, with a denominator other than 0, and so the ratio of blocks saved by
-- deduplication stays 0.
pub dedup_ratio-report_all :
    (es : List Event)
    → let s = report_all es no_stats in
      (s.unique_blocks ≡ s.total_blocks)
      × ((dedup_ratio s).0 ≡ (dedup_ratio s).1)
      × (0 < (dedup_ratio s).1)
unfolding dedup_ratio
dedup_ratio-report_all es =
    let same = report_all-same es no_stats refl in (same, ground (arith, same), ground arith)
