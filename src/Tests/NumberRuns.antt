-- ===== src/Tests/NumberRuns.antt =====
-- Five requests for numbers of two workspaces.
use rezorpay_pro.Common.{List, [], ◌∷◌, ◌≡◌}
use rezorpay_pro.Numbers.{CounterKey, last_number}
use rezorpay_pro.Numbers.Gapless.{
  take_numbers, numbers_of, requests_of, following, take_numbers_gapless,
}

abbrev ours : CounterKey
ours = record { workspace_id = 1; year = 2026 }

abbrev theirs : CounterKey
theirs = record { workspace_id = 2; year = 2026 }

abbrev requests : List CounterKey
requests = ours ∷ theirs ∷ ours ∷ theirs ∷ ours ∷ []

take_numbers_gapless_example :
    numbers_of ours (take_numbers "ST" requests ((ours, 6) ∷ []))
    ≡ following (last_number ours ((ours, 6) ∷ [])) (requests_of ours requests)
take_numbers_gapless_example = take_numbers_gapless "ST" ours requests ((ours, 6) ∷ [])
