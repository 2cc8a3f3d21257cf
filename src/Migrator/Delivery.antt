-- ===== src/Migrator/Delivery.antt =====
-- pkg/migrator/service.go: the background loop and the receipts together, over any interleaving.
-- The channel is unbuffered: a result is sent when `Receipt` receives it, so what the loop still has
-- to send for one answer is a list.
use inx_coordinator.Base.{
  ℕ, ◌≡◌, Bool, Option, none, some, List, [], ◌∷◌, ◌++◌, Error, ok, err, JsonIo, ◌⊎◌,
}
use inx_coordinator.Migrator.Service.{
  State, MigrationResult, Receipt, Service, returns, receipt, persist_state, init_state,
}
use inx_coordinator.Migrator.StateFile.{restarted}
use inx_coordinator.Migrator.Producer.{Queryer, retries, fetches, round, batches}
use inx_coordinator.Migrator.Ledger.{IsFaithful}

-- `Start`'s variables, the service with its state file, the entries of all receipts handed out so far,
-- and those handed out up to the last `PersistState` that has written the file.
pub record System (F : Type 0) : Type 0 where
  pub start_index : ℕ
  pub pending : List (MigrationResult F)
  pub service : Service
  pub delivered : List F
  pub saved : List F

module _ {F : Type 0} where
  -- The entries of what `Receipt` returns; nil has none.
  abbrev pub receipt_entries : Option (Receipt F) → List F
  receipt_entries none = []
  receipt_entries (some r) = r.funds

  -- A process that has initialised its state and not queried yet.
  abbrev pub started : Service → List F → System F
  started s out = record {
    start_index = 0;
    pending = [];
    service = s;
    delivered = out;
    saved = out;
  }

  -- `Receipt` has left this state and returned this receipt.
  abbrev pub received : List (MigrationResult F) → State → Option (Receipt F) → System F → System F
  received bs t r x = record x {
    pending = bs;
    service = record x.service { state = t };
    delivered = x.delivered ++ receipt_entries r;
  }

  -- One step of the service, or a restart of the process from its state file.
  pub data Step (max : ℕ) (funds : ℕ → List F) (x y : System F) : Type 0 where
    fetch :
        (on_error : Option (Error → Bool)) (q : Queryer F) (fuel ms next : ℕ) (l : List F)
        (bs : List (MigrationResult F))
        → IsFaithful funds q x.start_index x.service.state
        → x.pending ≡ []
        → round on_error q x.start_index x.service.state ≡ fetches ms l next
        → batches fuel max ms l ≡ some bs
        → y ≡ record x { start_index = next; pending = bs }
        → Step max funds x y
    retry :
        (on_error : Option (Error → Bool)) (q : Queryer F)
        → x.pending ≡ []
        → round on_error q x.start_index x.service.state ≡ retries
        → y ≡ x
        → Step max funds x y
    receive :
        (b : MigrationResult F) (bs : List (MigrationResult F)) (t : State) (r : Option (Receipt F))
        → x.pending ≡ b ∷ bs
        → receipt (some b) x.service.state ≡ returns t r
        → y ≡ received bs t r x
        → Step max funds x y
    -- `Receipt` while no result is waiting
    nothing :
        (t : State) (r : Option (Receipt F))
        → receipt none x.service.state ≡ returns t r
        → y ≡ received x.pending t r x
        → Step max funds x y
    -- `PersistState` has written the file
    persist :
        (io : JsonIo State) (fault : Option Error) (sending : Bool) (s : Service)
        → persist_state io fault sending x.service ≡ (ok tt, s)
        → y ≡ record x { service = s; saved = x.delivered }
        → Step max funds x y
    -- it has failed: its move has, and the file is the one before, or its write has, and no
    -- readable file is there
    persist_failed :
        (io : JsonIo State) (fault : Option Error) (sending : Bool) (s : Service) (e : Error)
        → persist_state io fault sending x.service ≡ (err e, s)
        → (s.file ≡ x.service.file) ⊎ (s.file.current ≡ none)
        → y ≡ record x { service = s }
        → Step max funds x y
    -- the process ends at any point, and `InitState` of a new one loads the file; the receipts
    -- since the file was written are in no milestone
    restart :
        (io : JsonIo State) (fresh : State) (s : Service)
        → init_state io none (restarted fresh x.service.file) ≡ (ok tt, s)
        → y ≡ started s x.saved
        → Step max funds x y

  pub data Run (max : ℕ) (funds : ℕ → List F) (x : System F) : System F → Type 0 where
    here : Run max funds x x
    then : {y z : System F} → Run max funds x y → Step max funds y z → Run max funds x z
