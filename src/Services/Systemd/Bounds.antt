-- ===== src/Services/Systemd/Bounds.antt =====
-- The bounds of what the systemd collector reports.
use homelab_inventory_agent.Prelude.{
  ℕ, zero, suc, ◌≤◌, ltb, ltb→le, List, [], ◌∷◌, Text, is_empty, length, All, true, false, ◌≡◌,
  arith, inl, inr, Bool-cases,
}
use homelab_inventory_agent.Exec.Ensures.{Ensures}
use homelab_inventory_agent.Protocol.Types.{Service}
use homelab_inventory_agent.Services.Valid.{is_known}
use homelab_inventory_agent.Services.Systemd.{Systemd, take, truncate}

-- A service with the name and the lengths that the heartbeat validator wants.
pub record Bounded (s : Service) : Type 0 where
  pub named : is_empty s.name ≡ false
  pub name_fits : length s.name ≤ 256
  pub description_fits : length s.description ≤ 2048
  pub active_fits : length s.active_state ≤ 64
  pub sub_fits : length s.sub_state ≤ 64
  pub classified : is_known s.classification ≡ true

take-length : (n : ℕ) (s : Text) → length (take n s) ≤ n
unfolding take
take-length zero s = ground arith
take-length (suc n) [] = ground arith
take-length (suc n) (c ∷ s) = ground (arith, take-length n s)

pub truncate-length : (n : ℕ) (s : Text) → length (truncate n s) ≤ n
truncate-length n s = elim (Bool-cases (ltb n (length s))) [
  | inl e ↦ rw e (take-length n s)
  | inr e ↦ rw e (ltb→le n (length s) e)
]

-- At most 512 services, each within its bounds.
pub record Limited (services : List Service) : Type 0 where
  pub few : length services ≤ 512
  pub bounded : All Bounded services
