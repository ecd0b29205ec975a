-- ===== src/Promotion/Queue/Returned.antt =====
-- The moment at which Run returns.
use urbanist_atlas.Base.{◌≤◌, Bool}
use urbanist_atlas.Promotion.Queue.{Worker}
use urbanist_atlas.Promotion.Queue.Jobs.{tally}

module _ {Job : Type 0} (p : Job → Bool) where
  abbrev Told : Worker Job → Type 0
  Told w = tally p w.dropped ≤ tally p w.reported
