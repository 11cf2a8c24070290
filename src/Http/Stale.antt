-- ===== src/Http/Stale.antt =====
-- handlers_stoplist.go and handlers_top.go together: a word that is put on the stop-list stays in
-- the top, as far as it was counted before.
use wb_trial_task.Postgres.Tables.{Tables}
