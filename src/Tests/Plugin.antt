-- ===== src/Tests/Plugin.antt =====
-- The migrator's plugin: a bootstrap with a limit of two entries, and an error that is no reason to stop.
use inx_coordinator.Base.{
  ℕ, ◌≡◌, ◌↔◌, refl, ◌⊎◌, Bool, true, false, none, some, Error, ok, err, external, panicked, ◌>>=◌,
  critical, StateFile,
}
use inx_coordinator.Migrator.Service.{State, init_state}
use inx_coordinator.Migrator.Service
use inx_coordinator.Migrator.Producer.{Queryer, stops, retries, round, next_migrations}
use inx_coordinator.Migrator.Plugin.{
  ℤ, pos, negsuc, Parameters, Limited, provide, configure, on_error,
}
use inx_coordinator.Migrator.Limits.{IsReady, Cuts, configure-IsReady}
use inx_coordinator.Migrator.Handler.{round-handled}
use inx_coordinator.Tests.Migration.{plain_io}

abbrev parameters : ℤ → Parameters
parameters n = record { receipt_max_entries = n; bootstrap = true; start_index = 4 }

abbrev no_file : StateFile Service.State
no_file = record { current = none; backup = none }

abbrev ready : Limited
ready = record {
  service = record {
    state = record {
      latest_migrated_at_index = 4;
      latest_included_index = 0;
      sending_receipt = false;
    };
    file = no_file;
  };
  receipt_max_entries = 2;
}

starts :
    (provide 128 (parameters (pos 2)) no_file
      >>= configure (plain_io Service.State) (parameters (pos 2)))
    ≡ ok ready
unfolding provide configure init_state
starts = refl

configure-IsReady_example :
    IsReady (plain_io Service.State) (parameters (pos 2)) no_file 128 ready × Cuts ℕ 2
configure-IsReady_example =
    configure-IsReady (plain_io Service.State) (parameters (pos 2)) no_file ℕ 128 ready starts

-- No limit below 1 is allowed, and none above the greatest.
panics :
    (provide 128 (parameters (negsuc 0)) no_file ≡ err panicked)
    × (provide 128 (parameters (pos 0)) no_file ≡ err panicked)
    × (provide 128 (parameters (pos 129)) no_file ≡ err panicked)
unfolding provide
panics = (refl, refl, refl)

abbrev is_critical_error : Error → Bool
is_critical_error (critical e) = true
is_critical_error e = false

abbrev silent : Queryer ℕ
silent = record {
  query_migrated_funds = λ i. err (external 2);
  query_next_migrated_funds = λ i. err (external 2);
}

round-handled_example :
    ((round (some (on_error is_critical_error (λ e. false) true)) silent 5 ready.service.state
        ≡ stops)
      ↔ ((e : Error) × (next_migrations silent 5 ready.service.state ≡ err e)
          × ((is_critical_error e ≡ true) ⊎ (true ≡ false))))
    × ((round (some (on_error is_critical_error (λ e. false) true)) silent 5 ready.service.state
          ≡ retries)
        ↔ ((e : Error) × (next_migrations silent 5 ready.service.state ≡ err e)
            × (is_critical_error e ≡ false)
            × (true ≡ true)))
round-handled_example =
    round-handled is_critical_error (λ e. false) true silent 5 ready.service.state
