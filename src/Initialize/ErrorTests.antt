-- ===== src/Initialize/ErrorTests.antt =====
-- A run of initialize where it cannot return.
use libfatbat.Prelude.{◌≡◌, some, [], List, ℕ}
use libfatbat.Base64.{codes}
use libfatbat.Outcome.{faults}
use libfatbat.Settings.{scalable_tx_rx, libfabric_endpoint_string}
use libfatbat.Settings.Names.{endpoint_type-endpoint_string}
use libfatbat.Endpoint.{Controller}
use libfatbat.Endpoint.Ledger.{opened, fabric, fabric-Working}
use libfatbat.OpenFabric.Ledger.{answers, answers-Offers}
use libfatbat.Initialize.{Settings, new_controller, not_asked, initialize}
use libfatbat.Initialize.ScalableRx.{initialize-scalable_tx_rx}
use libfatbat.Initialize.Tests.{addresses, settings, nothing_more, unset}

abbrev made : Controller (List ℕ)
made = new_controller unset not_asked 8 []

abbrev scalable_settings : Settings
scalable_settings = record settings {
  endpoint_type = some (libfabric_endpoint_string scalable_tx_rx);
}

initialize-scalable_tx_rx_example :
    initialize fabric answers addresses scalable_settings nothing_more (codes "cxi") 3 8 4 made
    ≡ faults
initialize-scalable_tx_rx_example =
    initialize-scalable_tx_rx fabric answers addresses opened fabric-Working answers-Offers
      scalable_settings nothing_more (codes "cxi") 3 8 4 made
      (endpoint_type-endpoint_string scalable_tx_rx)
