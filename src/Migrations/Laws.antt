-- ===== src/Migrations/Laws.antt =====
-- The scripts in the directory migrations: how they end, and when a stored notification expires.
use ugo.Base.{
  ℕ, ◌-◌, ◌*◌, ◌≤◌, ◌<◌, ◌≡◌, ◌⊎◌, inl, inr, refl, ap, Bool, true, false, List, [], ◌∷◌, ◌++◌, none,
  some, arith, Bool-cases,
}
use ugo.NotificationHandler.{delayed}
use ugo.NotificationHandler.Delay.{delayed_cases}
use ugo.Migrations.{Command, run, script, notification_expiry}

module _ (Database : Type 0) (perform : Command → Database → Database × Bool) where
  -- The database after some commands, whether they succeed or not.
  abbrev pub after_all : List Command → Database → Database
  after_all [] d = d
  after_all (c ∷ cs) d = after_all cs (perform c d).0

  -- Every one of some commands succeeds, in their order.
  abbrev pub AllSucceed : List Command → Database → Type 0
  AllSucceed [] d = Unit
  AllSucceed (c ∷ cs) d = ((perform c d).1 ≡ true) × AllSucceed cs (perform c d).0

  -- A command that fails after some that succeed.
  abbrev pub StopsAt : List Command → Database → Database → Type 0
  StopsAt cs d d' =
      (done : List Command) × (c : Command) × (left : List Command) × (cs ≡ done ++ c ∷ left)
      × AllSucceed done d
      × ((perform c (after_all done d)).1 ≡ false)
      × (d' ≡ (perform c (after_all done d)).0)

  run_cases :
      (cs : List Command) (d : Database)
      → let after = run Database perform cs d in
        ((after.1 ≡ true) × AllSucceed cs d × (after.0 ≡ after_all cs d))
        ⊎ ((after.1 ≡ false) × StopsAt cs d after.0)
  unfolding run
  run_cases [] d = inl (refl, tt, refl)
  run_cases (c ∷ cs) d = elim (Bool-cases (perform c d).1) [
    | inr fails ↦ rw fails (inr (refl, ([], c, cs, refl, tt, fails, refl)))
    | inl works ↦ elim (run_cases cs (perform c d).0) [
      | inl (closed, all, same) ↦ rw works (inl (closed, (refl, all), same))
      | inr (left_open, (done, c', left, e, all, fails, same)) ↦
          rw works
            (inr (left_open, (c ∷ done, c', left, ap (λ xs. c ∷ xs) e, (works, all), fails, same)))
    ]
  ]

  -- A script that is connected either performs all of its commands, each with success, and closes
  -- the client, or stops at the first command that fails, after those before it took effect, and
  -- leaves the client open.
  pub script_cases :
      (cs : List Command) (d : Database)
      → let after = script Database perform true cs d in
        ((after.1 ≡ true) × AllSucceed cs d × (after.0 ≡ after_all cs d))
        ⊎ ((after.1 ≡ false) × StopsAt cs d after.0)
  unfolding script
  script_cases cs d = run_cases cs d

-- By default a stored notification expires after twice the seconds until it is to be sent. Where
-- `SEND_DELAY` is set, to however few seconds, and the time is taken at the second 14 of a minute
-- or later, it expires after fewer seconds than those until it is to be sent.
pub notification_expiry_cases :
    (at delay : ℕ)
    → (notification_expiry ≡ 2 * (delayed at none - at))
      × (14 ≤ at → notification_expiry < delayed at (some delay) - at)
notification_expiry_cases at delay =
    let (unset, joined) = delayed_cases at delay in
    (rw unset (omega arith), λ late. omega (arith, joined))
