-- ===== src/Publishing/RepeatCron/Tests.antt =====
-- A weekly expression of the form at a concrete time.
use zernflow.Base.{ℕ, ◌≡◌, refl, some}
use zernflow.Base.Int.{pos}
use zernflow.Base.Json.{codes, decimal, digits_of}
use zernflow.Publishing.RepeatCron.{time_of, repeat_cron}
use zernflow.Publishing.RepeatCron.Laws.{IsRead, repeat_cron-parse_cron}

on_mondays :
    repeat_cron (codes "weekly") (codes "09:30") (pos 1) (pos 0) ≡ some (codes "30 9 * * 1")
unfolding repeat_cron time_of decimal digits_of
on_mondays = refl

repeat_cron-parse_cron_example :
    (h : ℕ) × (m : ℕ) × (time_of (codes "09:30") ≡ some (h, m))
    × IsRead (codes "weekly") (pos 1) (pos 0) h m (codes "30 9 * * 1")
repeat_cron-parse_cron_example =
    repeat_cron-parse_cron (codes "weekly") (codes "09:30") (pos 1) (pos 0) (codes "30 9 * * 1")
      on_mondays
