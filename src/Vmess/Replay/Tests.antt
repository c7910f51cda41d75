-- ===== src/Vmess/Replay/Tests.antt =====
-- The theorem on the replay filter at a filter of two items.
use rvg_sever.Prelude.{ℕ, ◌≡◌, List, [], ◌∷◌, Key, ℕ_discrete}
use rvg_sever.Vmess.Replay.{run, ideal}
use rvg_sever.Vmess.Replay.Window.{run-ideal}

abbrev items : List ℕ
items = 1 ∷ 2 ∷ 1 ∷ 3 ∷ 1 ∷ []

instance abbrev key : Key ℕ
key = record { dec = ℕ_discrete }

run-ideal_example : run (record { size = 2; seen = []; order = [] }) items ≡ ideal 2 [] items
run-ideal_example = run-ideal 2 items
