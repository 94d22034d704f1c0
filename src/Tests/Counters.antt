-- ===== src/Tests/Counters.antt =====
-- Inputs for the storage counters (src/module_c/storage_monitor_basic.c).
use smartbackup_fs.Base.{◌<◌, ◌≡◌, List, [], ◌∷◌}
use smartbackup_fs.Stats.{Event, dedup_ratio, no_stats, report_all}
use smartbackup_fs.Stats.Laws.{dedup_ratio-report_all}

-- a block, and two more that were found to be the same
abbrev events : List Event
events = Event.unique_added ∷ Event.dedup_hit 4096 ∷ Event.dedup_hit 4096 ∷ []

dedup_ratio-report_all_example :
    let s = report_all events no_stats in
    (s.unique_blocks ≡ s.total_blocks)
    × ((dedup_ratio s).0 ≡ (dedup_ratio s).1)
    × (0 < (dedup_ratio s).1)
dedup_ratio-report_all_example = dedup_ratio-report_all events
