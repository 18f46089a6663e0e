-- ===== src/Audit/Retry/Settled.antt =====
-- After a tick every job that it claimed is settled.
use silent_whisper.Prelude.{ℕ, Bool, true, not, ◌&&◌, ◌||◌, List, [], ◌∷◌, has}
use silent_whisper.Audit.Retry.{Job, is_processing}

abbrev ids : List Job → List ℕ
ids [] = []
ids (j ∷ jobs) = j.id ∷ ids jobs

-- Every job in process is one of those listed.
abbrev covered : List ℕ → List Job → Bool
covered is [] = true
covered is (j ∷ jobs) = (not (is_processing j) || has is j.id) && covered is jobs

-- No job is in process.
abbrev pub all_settled : List Job → Bool
all_settled [] = true
all_settled (j ∷ jobs) = not (is_processing j) && all_settled jobs
