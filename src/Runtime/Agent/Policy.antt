-- ===== src/Runtime/Agent/Policy.antt =====
-- The monitoring policy of the agent while the queue is transmitted.
use homelab_inventory_agent.Prelude.{
  ◌<◌, leb, List, [], ◌∷◌, Option, none, some, Result, ok, err, ◌≡◌, refl, ◌∙◌, ap, arith, ◌⊎◌, inl,
  inr, Bool-cases, Option-cases,
}
use homelab_inventory_agent.Exec.{continue, ◌>>=◌}
use homelab_inventory_agent.Exec.Moves.{
  Progress, Moves, Moves-zoom, Moves-bind, Moves-pure, Moves-raise, moves_rules,
}
use homelab_inventory_agent.Buffer.{Entry, entries_locked}
use homelab_inventory_agent.Protocol.Types.{MonitoringConfig}
use homelab_inventory_agent.Protocol.Monitoring.{validate_monitoring_config}
use homelab_inventory_agent.Transport.{
  N, send_heartbeat, TelemetryAcknowledgement, HeartbeatResponse,
}
use homelab_inventory_agent.Runtime.Stores.{TelemetrySyncState, S}
use homelab_inventory_agent.Runtime.Agent.{
  Agent, AgentError, client, Codecs, on_state, on_queue, on_net, set_monitoring, set_telemetry,
  apply_monitoring_config, apply_policy, reconcile_telemetry, apply_telemetry, on_answer,
  send_entry, flush_entry, flush_all, flush,
}

-- The policy is left alone, or replaced by a valid one of a higher revision.
abbrev pub Follows : MonitoringConfig → MonitoringConfig → Type 0
Follows old new =
    (new ≡ old) ⊎ ((old.revision < new.revision) × (validate_monitoring_config new ≡ none))

Follows-trans : (a b c : MonitoringConfig) → Follows a b → Follows b c → Follows a c
Follows-trans a b c (inl e) (inl f) = inl (f ∙ e)
Follows-trans a b c (inl e) (inr (up, valid)) =
    let same : b.revision ≡ a.revision = ap (λ m. m.revision) e in inr (omega arith, valid)
Follows-trans a b c (inr (up, valid)) (inl f) =
    let same : c.revision ≡ b.revision = ap (λ m. m.revision) f in
    inr (omega arith, ap validate_monitoring_config f ∙ valid)
Follows-trans a b c (inr (up, valid)) (inr (more, sound)) = inr (omega arith, sound)

abbrev policy : Progress Agent
policy = record {
  Goes = λ a b. Follows a.monitoring b.monitoring;
  stays = λ a. inl refl;
  joins = λ a b c. Follows-trans a.monitoring b.monitoring c.monitoring;
}

Moves-on_state : {A : Type 0} (m : S A) → Moves policy (on_state m)
unfolding on_state
Moves-on_state m = Moves-zoom policy _ _ _ m (λ s t. inl refl)

written-Follows :
    (config : MonitoringConfig) (a : Agent) (x : Result AgentError (Unit {0}) × Agent)
    → Follows a.monitoring x.1.monitoring
    → a.monitoring.revision < config.revision
    → validate_monitoring_config config ≡ none
    → Follows a.monitoring (continue x.0 (λ u. set_monitoring config) x.1).1.monitoring
unfolding set_monitoring
written-Follows config a (ok u, b) h up valid = inr (up, valid)
written-Follows config a (err e, b) h up valid = h

apply_monitoring_config-Follows :
    (codecs : Codecs) (config : MonitoringConfig) (a : Agent)
    → Follows a.monitoring (apply_monitoring_config codecs config a).1.monitoring
unfolding apply_monitoring_config ◌>>=◌
apply_monitoring_config-Follows codecs config a =
    elim (Option-cases (validate_monitoring_config config)) [
      | inr (e, invalid) ↦ rw invalid (inl refl)
      | inl valid ↦ rw valid (elim (Bool-cases (leb config.revision a.monitoring.revision)) [
        | inl old ↦ rw old (inl refl)
        | inr new ↦
            rw new
              (written-Follows config a _ ((Moves-on_state _).at a) (ground (arith, new)) valid)
      ])
    ]

Moves-apply_policy :
    (codecs : Codecs) (o : Option MonitoringConfig) → Moves policy (apply_policy codecs o)
Moves-apply_policy codecs none = Moves-pure policy tt
Moves-apply_policy codecs (some config) = record {
  at = apply_monitoring_config-Follows codecs config;
}

Moves-set_telemetry : (n : TelemetrySyncState) → Moves policy (set_telemetry n)
unfolding set_telemetry
Moves-set_telemetry n = record { at = λ a. inl refl }

Moves-reconcile :
    (codecs : Codecs) (t : TelemetryAcknowledgement) → Moves policy (reconcile_telemetry codecs t)
unfolding reconcile_telemetry
Moves-reconcile codecs t = search (moves_rules, Moves-on_state, Moves-set_telemetry)

Moves-apply_telemetry :
    (codecs : Codecs) (o : Option TelemetryAcknowledgement)
    → Moves policy (apply_telemetry codecs o)
Moves-apply_telemetry codecs none = Moves-pure policy tt
Moves-apply_telemetry codecs (some t) = Moves-reconcile codecs t

Moves-on_answer :
    (codecs : Codecs) (r : Result AgentError HeartbeatResponse) → Moves policy (on_answer codecs r)
Moves-on_answer codecs (ok r) = Moves-pure policy r
Moves-on_answer codecs (err (client e)) = search (moves_rules, Moves-on_state)
Moves-on_answer codecs (err e) = Moves-raise policy e

Moves-on_net : {A : Type 0} (m : N A) → Moves policy (on_net m)
unfolding on_net
Moves-on_net m = Moves-zoom policy _ _ _ m (λ s t. inl refl)

answered-Follows :
    (codecs : Codecs) (a : Agent) (x : Result AgentError HeartbeatResponse × Agent)
    → Follows a.monitoring x.1.monitoring
    → Follows a.monitoring (on_answer codecs x.0 x.1).1.monitoring
answered-Follows codecs a (r, b) h =
    Follows-trans a.monitoring b.monitoring _ h ((Moves-on_answer codecs r).at b)

Moves-send_entry : (codecs : Codecs) (e : Entry) → Moves policy (send_entry codecs e)
unfolding send_entry
Moves-send_entry codecs e = record {
  at = λ a. answered-Follows codecs a (on_net (sent a) a) ((Moves-on_net (sent a)).at a);
}
  where
    sent : Agent → N HeartbeatResponse
    sent a =
        send_heartbeat codecs.wire a.host a.identity.device_id a.identity.private_key e.sequence
          e.body

Moves-flush_entry : (codecs : Codecs) (e : Entry) → Moves policy (flush_entry codecs e)
unfolding flush_entry on_queue
Moves-flush_entry codecs e = Moves-bind policy _ _ (Moves-send_entry codecs e) (λ r.
    Moves-bind policy _ _ (Moves-apply_policy codecs r.monitoring_config) (λ u.
      Moves-bind policy _ _ (Moves-apply_telemetry codecs r.telemetry) (λ v.
        Moves-bind policy _ _ (Moves-zoom policy _ _ _ _ (λ s t. inl refl))
          (λ w. Moves-zoom policy _ _ _ _ (λ s t. inl refl)))))

Moves-flush_all : (codecs : Codecs) (es : List Entry) → Moves policy (flush_all codecs es)
unfolding flush_all
Moves-flush_all codecs [] = Moves-pure policy tt
Moves-flush_all codecs (e ∷ es) =
    Moves-bind policy _ _ (Moves-flush_entry codecs e) (λ u. Moves-flush_all codecs es)

-- Whatever the server answers and whichever calls fail, the transmission of the queue leaves the
-- monitoring policy alone or replaces it by a valid one of a higher revision.
pub flush-Follows :
    (codecs : Codecs) (a : Agent) → Follows a.monitoring (flush codecs a).1.monitoring
unfolding flush on_queue
flush-Follows codecs a =
    (Moves-bind policy _ _ (Moves-zoom policy _ _ _ entries_locked (λ s t. inl refl))
        (Moves-flush_all codecs)).at
      a
