-- ===== src/Settings/Tests.antt =====
-- Runs of the settings on concrete values of the environment.
use libfatbat.Prelude.{◌≡◌, ◌↔◌, refl, some, neg}
use libfatbat.Base64.{codes}
use libfatbat.Settings.{
  EndpointType, scalable_tx, names, atoi, libfabric_endpoint_type, libfabric_completions_per_poll,
}
use libfatbat.Settings.Names.{Selects, endpoint_type_iff}

number_selects : libfabric_endpoint_type (some (codes " 4 contexts")) ≡ EndpointType.scalable_tx_rx
unfolding libfabric_endpoint_type names
number_selects = refl

negative_poll_size : libfabric_completions_per_poll (some (codes "-16")) ≡ neg 16
unfolding libfabric_completions_per_poll atoi
negative_poll_size = refl

endpoint_type_iff_example :
    (libfabric_endpoint_type (some (codes "3")) ≡ scalable_tx) ↔ Selects (codes "3") scalable_tx
endpoint_type_iff_example = endpoint_type_iff (codes "3") scalable_tx (λ e. cc)
