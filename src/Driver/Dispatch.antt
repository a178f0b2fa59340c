-- ===== src/Driver/Dispatch.antt =====
-- run.py: `scenario`, which runs the standard scenario of a name.
pub mod Laws
use flatpak_blackbox_tests.Base.{String, List, ◌==◌, if◌then◌else◌}
use flatpak_blackbox_tests.Driver.{Reply, Repository, Driver, Script}
use flatpak_blackbox_tests.Driver.Remotes.{remote_configuration, remote_priority_order}
use flatpak_blackbox_tests.Driver.Scenario.{Fixture, standard_scenario}

unfoldable pub scenario :
    {S : Type 0}
    → (String → String)
    → (List String → Repository → S → Reply S)
    → Driver
    → Fixture
    → String
    → String
    → Script S (Unit {0})
unfolding standard_scenario remote_configuration remote_priority_order
scenario fold exec d f url name =
    if name == "remote-config"
    then remote_configuration exec d url f
    else if name == "remote-priority-order"
    then remote_priority_order exec d url
    else standard_scenario fold exec d f url name
