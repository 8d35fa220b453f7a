-- ===== src/Obs/Tests.antt =====
-- The metrics on a new registry, and on one that has them.
use auctioneer.Base.{◌≡◌, refl, none, some, []}
use auctioneer.Text.{bytes_eq}
use auctioneer.Obs.{new_metrics, must_register, metric_names, no_metrics}

registers : new_metrics [] ≡ some (no_metrics, metric_names)
unfolding new_metrics must_register bytes_eq
registers = refl

registers_once : new_metrics metric_names ≡ none
unfolding new_metrics must_register bytes_eq
registers_once = refl
