-- ===== src/Protocol/Monitoring.antt =====
-- protocol/v1/models.go: ValidateMonitoringConfig.
use homelab_inventory_agent.Prelude.{
  ◌||◌, ltb, ◌==◌, length, above, below, Option, first_failed, check_all, reject_if, ◌then_check◌,
  [], ◌∷◌, List, Bool, Text, is_blank,
}
use homelab_inventory_agent.Protocol.Types.{MonitoringConfig}

pub data MonitoringError : Type 0 where
  revision_required interval_invalid selection_limit selector_invalid : MonitoringError

unfoldable pub validate_selector : Text → Option MonitoringError
validate_selector s = reject_if (is_blank s || ltb 512 (length s)) selector_invalid

unfoldable pub monitoring_checks : MonitoringConfig → List (Bool × MonitoringError)
monitoring_checks c =
    (c.revision == 0, revision_required)
    ∷ (
      below c.service_interval_seconds 60 || above c.service_interval_seconds 3600,
      interval_invalid,
    )
    ∷ (
      ltb 512 (length c.selected_services) || ltb 256 (length c.selected_containers),
      selection_limit,
    )
    ∷ []

unfoldable pub validate_monitoring_config : MonitoringConfig → Option MonitoringError
unfolding monitoring_checks validate_selector
validate_monitoring_config c =
    first_failed (monitoring_checks c)
    then_check check_all validate_selector c.selected_services
    then_check check_all validate_selector c.selected_containers
