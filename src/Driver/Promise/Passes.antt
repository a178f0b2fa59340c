-- ===== src/Driver/Promise/Passes.antt =====
-- The standard scenarios return against a Flatpak that behaves as documented.
use flatpak_blackbox_tests.Base.{String, List}
use flatpak_blackbox_tests.Driver.{Reply, Repository, World, Driver}
use flatpak_blackbox_tests.Driver.Scenario.{Fixture}
use flatpak_blackbox_tests.Driver.Promise.{Installation, Flatpak}
use flatpak_blackbox_tests.Driver.Promise.Returns.{Returns}
use flatpak_blackbox_tests.Driver.Promise.Steps.{At}
use flatpak_blackbox_tests.Driver.Promise.Installs.{Listed}

module _ {S : Type 0} (fold : String → String) (exec : List String → Repository → S → Reply S)
    (d : Driver) (f : Fixture) (view : S → Installation) (flatpak : Flatpak fold exec d f view)
    (listed : Listed f) where
  abbrev Is : Installation → Repository → World S → Type 0
  Is = At fold exec d f view
