-- ===== src/Config/Defaults.antt =====
-- A section of capabilities that is there, but empty, and one that is missing.
use edge_orchestrator.Common.{◌≡◌, refl, true, false, none, some}
use edge_orchestrator.Config.{RawCapabilities, section, with_defaults}

-- The two differ in the storage that the node then advertises: where the section is missing it is
-- there, where the section does not name it, it is not.
pub storage_defaults :
    (r : RawCapabilities)
    → r.storage ≡ none
    → ((section none).storage ≡ true) × ((section (some r)).storage ≡ false)
unfolding with_defaults
storage_defaults r missing = (refl, rw missing refl)
