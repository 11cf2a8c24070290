-- ===== src/Tests/Http.antt =====
-- The API of the service over a small database.
use wb_trial_task.Common.{◌≡◌, ◌≢◌, ◌⊎◌, true, false, some, Str, runes, decimal, arith}
use wb_trial_task.Normalizer.{is_blocked, trim_space, is_space}
use wb_trial_task.Normalizer.StopWords.{stop_form}
use wb_trial_task.Stoplist
use wb_trial_task.Postgres.{RepoError}
use wb_trial_task.Metrics.{Collector, new_prometheus_collector}
use wb_trial_task.Http.{
  Api, Server, main_api, get_top, list_stop_words, add_stop_word, delete_stop_word,
}
use wb_trial_task.Http.Admin.{IsAdmin, unauthorized, stop_list-IsGuarded}
use wb_trial_task.Http.TopRead.{IsTopReply, get_top-IsTopReply}
use wb_trial_task.Http.StopWords.{ByStatus, add_stop_word-Truthful, delete_stop_word-Truthful}
use wb_trial_task.Tests.Data.{ascii, ascii-IsUnicode, busy_engine-IsValid}
use wb_trial_task.Main.Mixed.{
  Action, message, read_top, add_word, act_all, calls_of, act_all-run_adds,
}
use wb_trial_task.Window.{Engine}
use wb_trial_task.Window.Replay.{run_adds}
use wb_trial_task.Window.Invariant.{IsValid}
use wb_trial_task.Clock.{second}
use wb_trial_task.Common.{List, [], ◌∷◌, ◌*◌}
use wb_trial_task.Tests.Ingest.{system, accept_full}
use wb_trial_task.Tests.Postgres.{
  Words, postgres, tables, postgres-IsPostgres, stored, stored-InForm,
}

abbrev server : Server Words
server = record { database = stored; system = system; collector = new_prometheus_collector }

abbrev render : Collector → Str
render c = decimal c.top_read_total

abbrev api : Api (Server Words) (Stoplist.CommandError (RepoError Str))
api = main_api postgres ascii 5 render (runes "secret") (runes "1.0.0") true

get_top-IsTopReply_example :
    let x = get_top api (decimal 1) 3 7 9 server in IsTopReply 1 server x.1 x.0
get_top-IsTopReply_example =
    get_top-IsTopReply postgres ascii render (runes "secret") (runes "1.0.0") true 1 3 5 7 9 server
      (omega arith) (omega arith) busy_engine-IsValid

stop_list-IsGuarded_example :
    (IsAdmin api (runes "guess")
      × ((list_stop_words api (runes "guess") 5 server).0.status ≢ 401)
      × ((add_stop_word api (runes "guess") (some (runes "a")) server).0.status ≢ 401)
      × ((delete_stop_word api (runes "guess") (runes "a") server).0.status ≢ 401))
    ⊎ (¬ (IsAdmin api (runes "guess"))
        × (list_stop_words api (runes "guess") 5 server ≡ (unauthorized, server))
        × (add_stop_word api (runes "guess") (some (runes "a")) server ≡ (unauthorized, server))
        × (delete_stop_word api (runes "guess") (runes "a") server ≡ (unauthorized, server)))
stop_list-IsGuarded_example =
    stop_list-IsGuarded api (runes "guess") 5 (some (runes "a")) (runes "a") server

add_stop_word-Truthful_example :
    let w = stop_form ascii (runes "The") in
    let x = add_stop_word api (runes "secret") (some (runes "The")) server in
    ByStatus x.0.status 201 409
      (((tables stored).has_word w ≡ false)
        × (is_blocked x.1.system.normalizer.stop_words w ≡ true))
      ((tables stored).has_word w ≡ true)
add_stop_word-Truthful_example =
    add_stop_word-Truthful postgres tables tables postgres-IsPostgres ascii ascii-IsUnicode 5 server
      render (runes "secret") (runes "1.0.0") true (runes "secret") (runes "The")

delete_stop_word-Truthful_example :
    let w = stop_form ascii (runes "The") in
    let x = delete_stop_word api (runes "secret") (runes "The") server in
    ByStatus x.0.status 200 404
      (((tables stored).has_word w ≡ true)
        × (is_blocked x.1.system.normalizer.stop_words w ≡ false))
      ((tables stored).has_word w ≡ false)
unfolding trim_space is_space
delete_stop_word-Truthful_example =
    delete_stop_word-Truthful postgres tables tables postgres-IsPostgres ascii ascii-IsUnicode 5
      server render (runes "secret") (runes "1.0.0") true (runes "secret") (runes "The")
      stored-InForm

-- A message, a read of the top, the message again, and a request on the stop-list.
abbrev actions : List Action
actions =
    message (record { payload = runes "{}"; at = 12 * second })
    ∷ read_top (runes "5") 12 13 14 15
    ∷ message (record { payload = runes "{}"; at = 13 * second })
    ∷ add_word (runes "secret") (some (runes "tv")) 16
    ∷ []

act_all-run_adds_example :
    (s' : Server Words) × (e : Engine) × (act_all postgres ascii render
        (runes "secret")
        (runes "1.0.0")
        true
        accept_full
        actions
        server
      ≡ some s')
    × (run_adds
          (calls_of postgres ascii render
            (runes "secret")
            (runes "1.0.0")
            true
            accept_full
            actions
            server)
          server.system.engine
        ≡ some e)
    × (s'.system.engine.buckets ≡ e.buckets)
    × (s'.system.engine.totals ≡ e.totals)
    × IsValid s'.system.engine
act_all-run_adds_example =
    act_all-run_adds postgres ascii render (runes "secret") (runes "1.0.0") true accept_full actions
      server busy_engine-IsValid
