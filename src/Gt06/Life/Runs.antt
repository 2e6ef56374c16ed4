-- ===== src/Gt06/Life/Runs.antt =====
-- The theorems on the connections of a device at concrete inputs.
use gpstracker_backend.Base.{◌≡◌, [], ◌∷◌, some}
use gpstracker_backend.Gt06.Life.{advance, replace_conn, reading}
use gpstracker_backend.Gt06.Life.Handover.{reads, rests, ends, replace_conn_races}
use gpstracker_backend.Gt06.Life.Single.{Agrees, act, replacing, act-Agrees}

replace_conn_races_example :
    (advance 0 (replace_conn 2 (ends 1 [])) ≡ record (rests 1 (1 ∷ [])) { c_next = some 2 })
    × (advance 1 (advance 0 (replace_conn 3 (replace_conn 2 (rests 1 []))))
        ≡ record (reads 3 []) { loops = reading ∷ reading ∷ [] })
replace_conn_races_example = replace_conn_races 2 3 1 []

act-Agrees_example :
    Agrees (act (replacing 2) (reads 1 [])).loops (act (replacing 2) (reads 1 [])).state
act-Agrees_example = act-Agrees (replacing 2) (reads 1 []) tt tt
