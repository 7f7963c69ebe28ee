-- ===== src/Reader/Entries.antt =====
-- The reading of the services is the reading of the entries of the file, one after the other
-- (src/rscmng/config_reader.cpp, check_service_settings).
use application_aware_resour.Prelude.{ℕ, ◌≡◌, refl, sym, ap, ◌∙◌, List, [], ◌∷◌, ◌++◌, String}
use mathlib.Core.Path.{fun_ext}
use application_aware_resour.Map.{Map}
use application_aware_resour.Config.{ServiceSettings}
use application_aware_resour.Reader.Tree.{
  PropertyTree, Result, ok, fault, ◌>>=◌, >>=-assoc, stoi, get_child,
}
use application_aware_resour.Reader.Services.{
  parse_service_settings, assign_mode, read_modes, read_services, check_service_settings,
}
use application_aware_resour.Reader.Settings.{Entry, entry, settle, last_entry, entry-settle}

settle-append :
    (es es' : List Entry) (m : Map (Map ServiceSettings))
    → settle (es ++ es') m ≡ settle es' (settle es m)
unfolding settle
settle-append [] es' m = refl
settle-append ((a, b, s) ∷ es) es' m = settle-append es es' (assign_mode a b s m)

module _ (p : PropertyTree) (memory : p.Tree → ℕ) where
  open p use {Tree, children}

  -- The entries of the file, in their order, or the first fault.
  unfoldable pub mode_entries : ℕ → List (String × Tree) → Result (List Entry)
  mode_entries service_id [] = ok []
  mode_entries service_id ((mode_key, mode_tree) ∷ l) =
      parse_service_settings p (memory mode_tree) mode_tree >>= λ settings.
      stoi mode_key >>= λ mode.
      mode_entries service_id l >>= λ es. ok ((service_id, mode, settings) ∷ es)

  unfoldable pub service_entries : List (String × Tree) → Result (List Entry)
  service_entries [] = ok []
  service_entries ((service_id_str, service_tree) ∷ l) = stoi service_id_str >>= λ service_id.
      mode_entries service_id (children service_tree) >>= λ es.
      service_entries l >>= λ es'. ok (es ++ es')

  read_modes-settle :
      (service_id : ℕ) (l : List (String × Tree)) (m : Map (Map ServiceSettings))
      → read_modes p memory service_id l m ≡ (mode_entries service_id l >>= λ es. ok (settle es m))
  unfolding read_modes mode_entries settle
  read_modes-settle service_id [] m = refl
  read_modes-settle service_id ((mode_key, t) ∷ l) m =
      by_results (parse_service_settings p (memory t) t) (stoi mode_key)
        (λ s mode. read_modes-settle service_id l (assign_mode service_id mode s m))
    where
      by_results :
          (r : Result ServiceSettings) (k : Result ℕ)
          → ((s : ServiceSettings) (mode : ℕ)
              → read_modes p memory service_id l (assign_mode service_id mode s m) ≡ (
                  mode_entries service_id l >>= λ es.
                  ok (settle es (assign_mode service_id mode s m))))
          → (r >>= λ s.
              k >>= λ mode. read_modes p memory service_id l (assign_mode service_id mode s m))
            ≡ ((r >>= λ s.
                  k >>= λ mode. mode_entries service_id l >>= λ es. ok ((service_id, mode, s) ∷ es))
                >>= λ es. ok (settle es m))
      by_results (fault e) k ih = refl
      by_results (ok s) (fault e) ih = refl
      by_results (ok s) (ok mode) ih =
          ih s mode
          ∙ sym (
              >>=-assoc (mode_entries service_id l) (λ es. ok ((service_id, mode, s) ∷ es))
                (λ es. ok (settle es m)))

  read_services-settle :
      (l : List (String × Tree)) (m : Map (Map ServiceSettings))
      → read_services p memory l m ≡ (service_entries l >>= λ es. ok (settle es m))
  unfolding read_services service_entries settle
  read_services-settle [] m = refl
  read_services-settle ((service_id_str, t) ∷ l) m =
      by_key (stoi service_id_str) (λ service_id. read_modes-settle service_id (children t) m)
        (read_services-settle l)
    where
      by_entries :
          (r : Result (List Entry))
          → ((m' : Map (Map ServiceSettings))
              → read_services p memory l m' ≡ (service_entries l >>= λ es. ok (settle es m')))
          → ((r >>= λ es. ok (settle es m)) >>= read_services p memory l)
            ≡ ((r >>= λ es. service_entries l >>= λ es'. ok (es ++ es')) >>= λ es. ok (settle es m))
      by_entries (fault e) ih = refl
      by_entries (ok es) ih =
          ih (settle es m)
          ∙ ap (λ f. service_entries l >>= f)
              (fun_ext (λ es'. ap (λ m'. ok m') (sym (settle-append es es' m))))
          ∙ sym (>>=-assoc (service_entries l) (λ es'. ok (es ++ es')) (λ all. ok (settle all m)))

      by_key :
          (k : Result ℕ)
          → ((service_id : ℕ)
              → read_modes p memory service_id (children t) m
                ≡ (mode_entries service_id (children t) >>= λ es. ok (settle es m)))
          → ((m' : Map (Map ServiceSettings))
              → read_services p memory l m' ≡ (service_entries l >>= λ es. ok (settle es m')))
          → (k >>= λ service_id.
              read_modes p memory service_id (children t) m >>= read_services p memory l)
            ≡ ((k >>= λ service_id. mode_entries service_id (children t) >>= λ es.
                  service_entries l >>= λ es'. ok (es ++ es'))
                >>= λ es. ok (settle es m))
      by_key (fault e) modes ih = refl
      by_key (ok service_id) modes ih =
          ap (λ r. r >>= read_services p memory l) (modes service_id)
          ∙ by_entries (mode_entries service_id (children t)) ih

  -- Reading the services of a configuration is reading the entries of the file one after the other,
  -- with the same fault if one of them has one, and putting them into an empty map in that order;
  -- and that map has, for every service and mode, the last entry of the file for both, and nothing
  -- where there is none.
  pub check_service_settings-entries :
      (t : Tree)
      → (check_service_settings p memory t ≡ (
          get_child p "SERVICE_SETTINGS" t >>= λ c.
          service_entries (children c) >>= λ es. ok (settle es [])))
        × ((es : List Entry) (j k : ℕ) → entry j k (settle es []) ≡ last_entry j k es)
  unfolding check_service_settings
  check_service_settings-entries t = (
    ap (λ f. get_child p "SERVICE_SETTINGS" t >>= f)
        (fun_ext (λ c. read_services-settle (children c) [])),
    entry-settle,
  )
