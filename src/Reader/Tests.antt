-- ===== src/Reader/Tests.antt =====
-- The configuration of the example as it is read.
use application_aware_resour.Prelude.{ℕ, List, ◌≡◌, refl, [], ◌∷◌}
use application_aware_resour.Reader.Tree.{get_child, ◌>>=◌, Fault, ok, fault, stoi}
use application_aware_resour.Reader.Services.{check_service_settings}
use application_aware_resour.Reader.Experiment.{convert_hex_to_int, check_experiment_settings}
use application_aware_resour.Reader.Settings.{Entry, entry, settle, last_entry}
use application_aware_resour.Reader.Entries.{service_entries, check_service_settings-entries}
use application_aware_resour.Reader.Example.{configuration, root, settings, parameters}

stoi-negative : stoi " -1x" ≡ ok 0xFFFFFFFF
unfolding stoi
stoi-negative = refl

stoi-bad : stoi "m1" ≡ fault Fault.invalid_argument
unfolding stoi
stoi-bad = refl

stoi-large : stoi "2147483648" ≡ fault Fault.out_of_range
unfolding stoi
stoi-large = refl

convert_hex : convert_hex_to_int (b'0' ∷ b'x' ∷ b'f' ∷ b'F' ∷ []) ≡ ok 255
unfolding convert_hex_to_int
convert_hex = refl

services_read :
    check_service_settings configuration (λ t. 9) root ≡ ok ((7, (2, settings) ∷ []) ∷ [])
unfolding check_service_settings
services_read = refl

parameters_read : check_experiment_settings configuration 3 root ≡ ok parameters
unfolding check_experiment_settings
parameters_read = refl

check_service_settings-entries_example :
    (check_service_settings configuration (λ t. 9) root ≡ (
      get_child configuration "SERVICE_SETTINGS" root >>= λ c.
      service_entries configuration (λ t. 9) (configuration.children c) >>= λ es.
      ok (settle es [])))
    × ((es : List Entry) (j k : ℕ) → entry j k (settle es []) ≡ last_entry j k es)
check_service_settings-entries_example = check_service_settings-entries configuration (λ t. 9) root
