-- ===== src/Reader/Ranges.antt =====
-- The ranges of the settings that are read: the numbers that are read one by one fit their types.
use application_aware_resour.Prelude.{
  ℕ, some_inj, ◌^◌, ◌<◌, ◌≡◌, refl, subst, sym, ◌∙◌, arith, List, [], ◌∷◌, ◌++◌, Option, some, none,
  String, All, ◌==◌, ◌&&◌, if◌then◌else◌, Bool, true, false,
}
use application_aware_resour.Map.{Map, find}
use application_aware_resour.Map.Laws.{or_else}
use application_aware_resour.Config.{ServiceSettings, no_settings}
use application_aware_resour.Manager.Slots.{IsServices, slot_of}
use application_aware_resour.Reader.Tree.{
  PropertyTree, ok, Ensures, holds, Ensures-ok, bind-Ensures, then-Ensures, get_uint64-Ensures,
  get_child, get_uint32-Ensures,
}
use application_aware_resour.Reader.Services.{parse_service_settings, check_service_settings}
use application_aware_resour.Reader.Settings.{
  Entry, entry, settle, last_entry, nothing-IsServices, settle-IsServices, entry-settle,
}
use application_aware_resour.Reader.Entries.{
  mode_entries, service_entries, check_service_settings-entries,
}

-- The numbers that are read one by one fit the types of their members; data_path and number_packets
-- are not among them.
pub record FitsSettings (s : ServiceSettings) : Type 0 where
  pub service_id : s.service_id < 2 ^ 64
  pub port : s.port < 2 ^ 32
  pub object_size : s.object_size < 2 ^ 32
  pub deadline : s.deadline < 2 ^ 32
  pub service_priority : s.service_priority < 2 ^ 32
  pub slot_offset : s.slot_offset < 2 ^ 32
  pub slot_length : s.slot_length < 2 ^ 32
  pub inter_packet_gap : s.inter_packet_gap < 2 ^ 32
  pub inter_object_gap : s.inter_object_gap < 2 ^ 32

abbrev FitsEntry : Entry → Type 0
FitsEntry (service_id, mode, settings) = FitsSettings settings

append-All :
    (es es' : List Entry) → All FitsEntry es → All FitsEntry es' → All FitsEntry (es ++ es')
append-All [] es' h k = k
append-All (e ∷ es) es' (first, rest) k = (first, append-All es es' rest k)

module _ (p : PropertyTree) where
  open p use {Tree, children, uint64_value}

  parse_service_settings-Ensures :
      (memory : ℕ) (t : Tree) → Ensures FitsSettings (parse_service_settings p memory t)
  unfolding parse_service_settings
  parse_service_settings-Ensures memory t =
      then-Ensures _ (get_uint64-Ensures p "SERVICE_ID" t) λ id h0. bind-Ensures _ _ λ ip.
        then-Ensures _ (get_uint32-Ensures p "PORT" t) λ port h1. bind-Ensures _ _ λ path.
          then-Ensures _ (get_uint32-Ensures p "OBJECT_SIZE [KByte]" t) λ size h2.
            then-Ensures _ (get_uint32-Ensures p "DEADLINE [ms]" t) λ deadline h3.
              then-Ensures _ (get_uint32-Ensures p "PRIORITY" t) λ priority h4.
                then-Ensures _ (get_uint32-Ensures p "SLOT_OFFSET [ms]" t) λ offset h5.
                  then-Ensures _ (get_uint32-Ensures p "SLOT_LENGTH [ms]" t) λ len h6.
                    then-Ensures _ (get_uint32-Ensures p "INTER_PACKET_GAP[us]" t) λ packet h7.
                      then-Ensures _ (get_uint32-Ensures p "INTER_OBJECT_GAP[us]" t) λ object h8.
                        holds _ (record {
                          service_id = h0;
                          port = h1;
                          object_size = h2;
                          deadline = h3;
                          service_priority = h4;
                          slot_offset = h5;
                          slot_length = h6;
                          inter_packet_gap = h7;
                          inter_object_gap = h8;
                        })

  module _ (memory : Tree → ℕ) where
    mode_entries-Ensures :
        (service_id : ℕ) (l : List (String × Tree))
        → Ensures (All FitsEntry) (mode_entries p memory service_id l)
    unfolding mode_entries
    mode_entries-Ensures service_id [] = holds _ tt
    mode_entries-Ensures service_id ((key, t) ∷ l) =
        then-Ensures _ (parse_service_settings-Ensures (memory t) t) λ settings h.
          bind-Ensures _ _
            λ mode. then-Ensures _ (mode_entries-Ensures service_id l) λ es rest. holds _ (h, rest)

    service_entries-Ensures :
        (l : List (String × Tree)) → Ensures (All FitsEntry) (service_entries p memory l)
    unfolding service_entries
    service_entries-Ensures [] = holds _ tt
    service_entries-Ensures ((key, t) ∷ l) = bind-Ensures _ _ λ service_id.
        then-Ensures _ (mode_entries-Ensures service_id (children t)) λ es h.
          then-Ensures _ (service_entries-Ensures l) λ es' h'. holds _ (append-All es es' h h')

last_entry-Fits :
    (j k : ℕ) (es : List Entry) (s : ServiceSettings)
    → All FitsEntry es
    → last_entry j k es ≡ some s
    → FitsSettings s
unfolding last_entry
last_entry-Fits j k [] s h e = cc
last_entry-Fits j k ((a, b, settings) ∷ es) s (first, rest) e =
    by_last (last_entry j k es) (λ x later. last_entry-Fits j k es x rest later) (a == j && b == k)
      e
  where
    by_last :
        (o : Option ServiceSettings)
        → ((x : ServiceSettings) → o ≡ some x → FitsSettings x)
        → (test : Bool)
        → (elim o [ some x ↦ some x | none ↦ if test then some settings else none ]) ≡ some s
        → FitsSettings s
    by_last (some x) later test h = later s h
    by_last none later true h = subst FitsSettings (some_inj h) first
    by_last none later false h = cc

-- What is read: the keys rise, and every setting fits.
pub record IsConfigured (m : Map (Map ServiceSettings)) : Type 0 where
  pub well_formed : IsServices m
  pub fits : (j k : ℕ) (s : ServiceSettings) → entry j k m ≡ some s → FitsSettings s

settle-IsConfigured : (es : List Entry) → All FitsEntry es → IsConfigured (settle es [])
settle-IsConfigured es h = record {
  well_formed = settle-IsServices es [] nothing-IsServices;
  fits = λ j k s e. last_entry-Fits j k es s h (sym (entry-settle es j k) ∙ e);
}

-- The services that are read from a configuration are maps whose keys rise, the inner ones too, and
-- the numbers of their settings that are read one by one fit the types of their members, because the
-- numbers of a tree fit the type they are asked for.
pub check_service_settings-IsConfigured :
    (p : PropertyTree) (memory : p.Tree → ℕ) (t : p.Tree) (m : Map (Map ServiceSettings))
    → check_service_settings p memory t ≡ ok m
    → IsConfigured m
check_service_settings-IsConfigured p memory t m e =
    Ensures-ok
      (subst (Ensures IsConfigured) (sym (check_service_settings-entries p memory t).0) (
        bind-Ensures (get_child p "SERVICE_SETTINGS" t) _ λ c.
          then-Ensures _ (service_entries-Ensures p memory (p.children c))
            λ es h. holds _ (settle-IsConfigured es h)))
      e

-- The slots of such a map are in range.
pub slot_of-fits :
    (m : Map (Map ServiceSettings)) → IsConfigured m → (j k : ℕ) → slot_of m j k < 2 ^ 32
unfolding slot_of entry
slot_of-fits m v j k = by_entry (find k (or_else (find j m) [])) (v.fits j k)
  where
    by_entry :
        (o : Option ServiceSettings)
        → ((s : ServiceSettings) → o ≡ some s → FitsSettings s)
        → (or_else o no_settings).slot_offset < 2 ^ 32
    by_entry none h = omega arith
    by_entry (some s) h = (h s refl).slot_offset
