-- ===== src/Update/Platform/Commands.antt =====
-- internal/agentupdate/platform.go: the commands and the waits, and the files beside them.
use homelab_inventory_agent.Prelude.{
  ℕ, zero, suc, ◌==◌, ◌&&◌, not, List, [], ◌∷◌, Text, Bool, ℤ, ◌≡◌, refl, ◌∙◌,
}
use homelab_inventory_agent.Exec.Moves.{
  Progress, Moves, Moves-pure, Moves-bind, Moves-if, moves_rules,
}
use homelab_inventory_agent.Os.{Outcome}
use homelab_inventory_agent.Update.Machine.{Machine, Event, UpdateError}
use homelab_inventory_agent.Update.Platform.{
  taken, happen, output, run_command, wait_interval, health_rounds, rounds_of,
  wait_for_sustained_health,
}

abbrev pub same_files : Progress Machine
same_files = record {
  Goes = λ m n. n.files ≡ m.files;
  stays = λ m. refl;
  joins = λ m n o e f. f ∙ e;
}

taken-files :
    (event : Event) (os : List Outcome) (m : Machine) → (taken event os m).1.files ≡ m.files
taken-files event [] m = refl
taken-files event (o ∷ rest) m = refl

Moves-happen : (e : UpdateError) (event : Event) → Moves same_files (happen e event)
unfolding happen
Moves-happen e event = record { at = λ m. taken-files event m.outcomes m }

pub Moves-output : (argv : List Text) → Moves same_files (output argv)
unfolding output
Moves-output argv = Moves-happen _ _

pub Moves-run_command : (argv : List Text) → Moves same_files (run_command argv)
unfolding run_command
Moves-run_command [] = Moves-pure same_files tt
Moves-run_command (name ∷ arguments) = search (moves_rules, Moves-happen)

Moves-wait : Moves same_files wait_interval
unfolding wait_interval
Moves-wait = search (moves_rules, Moves-happen)

Moves-health_rounds :
    (n : ℕ) (waits : Bool) (argv : List Text) → Moves same_files (health_rounds n waits argv)
unfolding health_rounds
Moves-health_rounds zero waits argv = Moves-pure same_files tt
Moves-health_rounds (suc n) waits argv = Moves-bind same_files _ _ (Moves-run_command argv) (λ u.
    Moves-bind same_files _ _
      (Moves-if same_files (waits && not (n == 0)) _ _ Moves-wait (Moves-pure same_files tt))
      (λ v. Moves-health_rounds n waits argv))

pub Moves-health :
    (argv : List Text) (checks : ℤ) (waits : Bool)
    → Moves same_files (wait_for_sustained_health argv checks waits)
unfolding wait_for_sustained_health
Moves-health [] checks waits = Moves-pure same_files tt
Moves-health (name ∷ arguments) checks waits = Moves-health_rounds (rounds_of checks) waits _
