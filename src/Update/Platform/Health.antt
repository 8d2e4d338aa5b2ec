-- ===== src/Update/Platform/Health.antt =====
-- The rounds of waitForSustainedHealth where the service is healthy.
use homelab_inventory_agent.Prelude.{
  ℕ, zero, suc, ◌==◌, List, [], ◌∷◌, ◌++◌, Text, ok, ℤ, Bool, true, false, if◌then◌else◌, ◌≡◌, refl,
  ap, ◌∙◌, arith,
}
use homelab_inventory_agent.Exec.{◌>>=◌}
use homelab_inventory_agent.Os.{Dir}
use homelab_inventory_agent.Update.Machine.{Machine, Web, Event, command, wait}
use homelab_inventory_agent.Update.Platform.{
  happen, run_command, wait_interval, health_rounds, rounds_of, wait_for_sustained_health,
}

-- What happens between two runs.
abbrev gap : Bool → List Event → List Event
gap waits events = if waits then wait ∷ events else events

-- The runs of the command with a wait between two of them, the newest first.
unfoldable pub sustained : ℕ → Bool → List Text → List Event
sustained zero waits argv = []
sustained (suc zero) waits argv = command argv ∷ []
sustained (suc (suc n)) waits argv = command argv ∷ gap waits (sustained (suc n) waits argv)

-- The same runs, with the oldest taken apart.
sustained-oldest :
    (n : ℕ) (waits : Bool) (argv : List Text) (events : List Event)
    → sustained (suc n) waits argv ++ gap waits (command argv ∷ events)
      ≡ sustained (suc (suc n)) waits argv ++ events
unfolding sustained
sustained-oldest zero true argv events = refl
sustained-oldest zero false argv events = refl
sustained-oldest (suc n) true argv events =
    ap (λ es. command argv ∷ wait ∷ es) (sustained-oldest n true argv events)
sustained-oldest (suc n) false argv events =
    ap (λ es. command argv ∷ es) (sustained-oldest n false argv events)

module _ (files : Dir) (web : Web) where
  -- The machine on which every command works.
  abbrev pub working : List Event → Machine
  working events = record { files = files; web = web; outcomes = []; events = events }

  not-last : (n : ℕ) → (suc n == 0) ≡ false
  not-last n = ground arith

  step-health_rounds :
      (n : ℕ) (waits : Bool) (name : Text) (arguments : List Text) (events : List Event)
      → health_rounds (suc (suc n)) waits (name ∷ arguments) (working events)
        ≡ health_rounds
            (suc n)
            waits
            (name ∷ arguments)
            (working (gap waits (command (name ∷ arguments) ∷ events)))
  unfolding health_rounds ◌>>=◌ run_command wait_interval happen
  step-health_rounds n true name arguments events = rw (not-last n) refl
  step-health_rounds n false name arguments events = refl

  last-health_rounds :
      (waits : Bool) (name : Text) (arguments : List Text) (events : List Event)
      → health_rounds 1 waits (name ∷ arguments) (working events)
        ≡ (ok tt, working (command (name ∷ arguments) ∷ events))
  unfolding health_rounds ◌>>=◌ run_command wait_interval happen
  last-health_rounds true name arguments events = refl
  last-health_rounds false name arguments events = refl

  health_rounds-sustained :
      (n : ℕ) (waits : Bool) (name : Text) (arguments : List Text) (events : List Event)
      → health_rounds (suc n) waits (name ∷ arguments) (working events)
        ≡ (ok tt, working (sustained (suc n) waits (name ∷ arguments) ++ events))
  unfolding sustained
  health_rounds-sustained zero waits name arguments events =
      last-health_rounds waits name arguments events
  health_rounds-sustained (suc n) waits name arguments events =
      step-health_rounds n waits name arguments events
      ∙ health_rounds-sustained n waits name arguments
          (gap waits (command (name ∷ arguments) ∷ events))
      ∙ ap (λ es. (ok tt, working es)) (sustained-oldest n waits (name ∷ arguments) events)

rounds-suc : (checks : ℤ) → (n : ℕ) × (rounds_of checks ≡ suc n)
rounds-suc (ℤ.pos zero) = (0, refl)
rounds-suc (ℤ.pos (suc n)) = (n, refl)
rounds-suc (ℤ.negsuc n) = (0, refl)

-- On a machine where every command works, the wait for sustained health ends with success, after one
-- run of the health command for each check, and one at least, with a wait between two runs if the
-- interval is positive; it changes nothing else.
pub wait_for_sustained_health-sustained :
    (checks : ℤ) (waits : Bool) (name : Text) (arguments : List Text) (files : Dir) (web : Web)
    (events : List Event)
    → wait_for_sustained_health (name ∷ arguments) checks waits (working files web events)
      ≡ (ok tt, working files web (sustained (rounds_of checks) waits (name ∷ arguments) ++ events))
unfolding wait_for_sustained_health
wait_for_sustained_health-sustained checks waits name arguments files web events =
    let (n, same) = rounds-suc checks in
    rw same (health_rounds-sustained files web n waits name arguments events)
