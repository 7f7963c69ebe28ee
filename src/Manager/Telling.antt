-- ===== src/Manager/Telling.antt =====
-- What the clients get of the loops over the registered services (include/rscmng/rm/net_layer_rm.tpp,
-- start_network_traffic_synchronous and stopping_experiment_synchronous).
use application_aware_resour.Prelude.{
  ℕ, ◌^◌, ◌<◌, ◌≡◌, refl, ap, sym, ◌∙◌, List, [], ◌∷◌, ◌++◌, append_assoc, append-nil, ◌>>=◌,
  Option, some, none, Option-cases, inl, inr, All,
}
use application_aware_resour.Message.{Message}
use application_aware_resour.Channel.{Datagram}
use application_aware_resour.Map.{Map}
use application_aware_resour.Manager.{Manager}
use application_aware_resour.Manager.Start.{Step, mode_of, for_services}
use application_aware_resour.Manager.Commands.{Receiver, Command, Delivers}

-- Command by command, datagram by datagram.
unfoldable pub Delivered : Receiver → List Command → List Datagram → Type 0
Delivered r [] [] = Unit {0}
Delivered r [] (_ ∷ _) = ⊥
Delivered r (_ ∷ _) [] = ⊥
Delivered r (c ∷ cs) (d ∷ ds) = Delivers r c d × Delivered r cs ds

-- A run returns, and what it sends delivers these commands, in their order.
pub record Runs (r : Receiver) (P : Manager → Type 0) (commands : List Command) (before : Manager)
    (result : Option Manager) : Type 0 where
  pub after : Manager
  pub returns : result ≡ some after
  pub datagrams : List Datagram
  pub sends : after.sent ≡ before.sent ++ datagrams
  pub delivered : Delivered r commands datagrams
  pub keeps : P after

-- The commands for the services of the clients that have a mode, in the order of the services.
unfoldable pub told : Map (Map ℕ) → ℕ → (ℕ → Message → ℕ → Command) → Map Message → List Command
told modes network_mode command [] = []
told modes network_mode command ((service_id, message) ∷ l) =
    let rest = told modes network_mode command l in
    elim (mode_of modes network_mode message.source_id) [
      | none ↦ rest
      | some mode ↦ command service_id message mode ∷ rest
    ]

abbrev pub HasService : ℕ × Message → Type 0
HasService (service_id, _) = service_id < 2 ^ 64

module _ (modes : Map (Map ℕ)) (network_mode service_id : ℕ) (message : Message)
    (l : Map Message) where
  module _ (e : mode_of modes network_mode message.source_id ≡ none) where
    told-none :
        (command : ℕ → Message → ℕ → Command)
        → told modes network_mode command ((service_id, message) ∷ l)
          ≡ told modes network_mode command l
    unfolding told
    told-none command = rw (e, told) refl

    for_services-none :
        (step : Step) (st : Manager)
        → for_services modes network_mode step ((service_id, message) ∷ l) st
          ≡ for_services modes network_mode step l st
    unfolding for_services
    for_services-none step st = rw (e, for_services) refl

  module _ (mode : ℕ) (e : mode_of modes network_mode message.source_id ≡ some mode) where
    told-some :
        (command : ℕ → Message → ℕ → Command)
        → told modes network_mode command ((service_id, message) ∷ l)
          ≡ command service_id message mode ∷ told modes network_mode command l
    unfolding told
    told-some command = rw (e, told) refl

    for_services-some :
        (step : Step) (st : Manager)
        → for_services modes network_mode step ((service_id, message) ∷ l) st
          ≡ step service_id message mode st >>= for_services modes network_mode step l
    unfolding for_services
    for_services-some step st = rw (e, for_services) refl

module _ (r : Receiver) (P : Manager → Type 0) where
  abbrev pub done : (st : Manager) → P st → Runs r P [] st (some st)
  unfolding Delivered
  done st p = record {
    after = st;
    returns = refl;
    datagrams = [];
    sends = sym (append-nil st.sent);
    delivered = tt;
    keeps = p;
  }

  -- What was done before a run does not count, if it sent nothing.
  pub Runs-from :
      (cs : List Command) (before before' : Manager) (result : Option Manager)
      → before'.sent ≡ before.sent
      → Runs r P cs before' result
      → Runs r P cs before result
  Runs-from cs before before' result same run = record {
    after = run.after;
    returns = run.returns;
    datagrams = run.datagrams;
    sends = run.sends ∙ ap (λ l. l ++ run.datagrams) same;
    delivered = run.delivered;
    keeps = run.keeps;
  }

  Delivered-append :
      (cs cs' : List Command) (ds ds' : List Datagram)
      → Delivered r cs ds
      → Delivered r cs' ds'
      → Delivered r (cs ++ cs') (ds ++ ds')
  unfolding Delivered
  Delivered-append [] cs' [] ds' a b = b
  Delivered-append [] cs' (d ∷ ds) ds' a b = absurd a
  Delivered-append (c ∷ cs) cs' [] ds' a b = absurd a
  Delivered-append (c ∷ cs) cs' (d ∷ ds) ds' a b = (a.0, Delivered-append cs cs' ds ds' a.1 b)

  -- Two runs in a row.
  pub Runs-then :
      (cs cs' : List Command) (before : Manager) (first : Option Manager)
      (next : Manager → Option Manager) (run : Runs r P cs before first)
      → Runs r P cs' run.after (next run.after)
      → Runs r P (cs ++ cs') before (first >>= next)
  Runs-then cs cs' before first next run run' = record {
    after = run'.after;
    returns = rw run.returns run'.returns;
    datagrams = run.datagrams ++ run'.datagrams;
    sends =
        run'.sends
        ∙ ap (λ l. l ++ run'.datagrams) run.sends
        ∙ append_assoc before.sent run.datagrams run'.datagrams;
    delivered = Delivered-append cs cs' run.datagrams run'.datagrams run.delivered run'.delivered;
    keeps = run'.keeps;
  }

  module _ (modes : Map (Map ℕ)) (network_mode : ℕ) (step : Step)
      (command : ℕ → Message → ℕ → Command)
      (step-Runs : (service_id : ℕ) (message : Message) (mode : ℕ) (st : Manager)
        → service_id < 2 ^ 64
        → P st
        → Runs r P
            (command service_id message mode ∷ [])
            st
            (step service_id message mode st)) where
    -- The loop over the services tells each client that has a mode what its step tells it.
    pub for_services-Runs :
        (l : Map Message) (st : Manager)
        → All HasService l
        → P st
        → Runs r P
            (told modes network_mode command l)
            st
            (for_services modes network_mode step l st)
    unfolding for_services told
    for_services-Runs [] st bounded p = done st p
    for_services-Runs ((service_id, message) ∷ l) st (low, bounded) p =
        elim (Option-cases (mode_of modes network_mode message.source_id)) [
          | inl e ↦
              rw
                (
                  told-none modes network_mode service_id message l e command,
                  for_services-none modes network_mode service_id message l e step st,
                )
                (for_services-Runs l st bounded p)
          | inr (mode, e) ↦
              let run = step-Runs service_id message mode st low p in
              rw
                (
                  told-some modes network_mode service_id message l mode e command,
                  for_services-some modes network_mode service_id message l mode e step st,
                )
                (Runs-then (command service_id message mode ∷ []) _ st _ _ run
                  (for_services-Runs l run.after bounded run.keeps))
        ]
