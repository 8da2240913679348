-- ===== src/NotificationHandler/Delay.antt =====
-- handler-notification-push.js: when a notification about checks is to be sent.
use ugo.Base.{ℕ, ◌+◌, ◌*◌, ◌≤◌, ◌≡◌, refl, none, some, arith}
use ugo.Base.Text.Decimal.{to_number-joined}
use ugo.NotificationHandler.{delayed, default_delay}

pub delayed_cases :
    (at delay : ℕ)
    → (delayed at none ≡ at + default_delay) × (at + delay + at * 9 ≤ delayed at (some delay))
unfolding delayed
delayed_cases at delay = (refl, omega (arith, to_number-joined at delay))
