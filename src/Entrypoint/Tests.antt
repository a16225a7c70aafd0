-- ===== src/Entrypoint/Tests.antt =====
-- Two signals from the keyboard, and instances of the theorems.
use go_component.Prelude.{ℕ, refl, false, ◌≤◌, ◌≡◌, ◌⊎◌, true}
use go_component.Entrypoint.{
  on_sigterm, soft_notify, hard_notify, Handlers, new_handlers, on_sigint, hard_receive,
  soft_receive,
}
use go_component.Entrypoint.Answers.{
  Reach, begins, soft_notifies, hard_notifies, sigint, Reach-answers,
}

abbrev twice : Handlers
twice = on_sigint (on_sigint (hard_notify (soft_notify new_handlers)))

abbrev two_signals : Reach 2 2 twice
unfolding new_handlers soft_notify hard_notify on_sigint on_sigterm
two_signals = sigint (sigint (hard_notifies refl (soft_notifies refl begins)))

Reach-answers_example :
    ((twice.has_terminated ≡ false) ⊎ (2 ≤ 2))
    × ((twice.has_stopped ≡ false) ⊎ (1 ≤ 2))
    × ((twice.soft_gone ≡ true)
        ⊎ (◌≡◌ {A = ℕ} 2 0)
        ⊎ (twice.has_stopped ≡ true)
        ⊎ ((1 ≤ twice.soft_held) × ((soft_receive twice).has_stopped ≡ true)))
    × ((twice.hard_gone ≡ true)
        ⊎ (2 ≤ 1)
        ⊎ (twice.has_terminated ≡ true)
        ⊎ ((1 ≤ twice.hard_held) × ((hard_receive twice).has_terminated ≡ true))
        ⊎ ((2 ≤ twice.hard_held) × ((hard_receive (hard_receive twice)).has_terminated ≡ true)))
Reach-answers_example = Reach-answers two_signals
