-- ===== src/Quorum/Race.antt =====
-- pkg/coordinator/quorum.go: `checkMerkleTreeHash`, with the goroutines of the groups, the channel
-- `quorumErrChan` without a buffer, and the channel `quorumDoneChan`, in any interleaving.
use inx_coordinator.Base.{
  ℕ, suc, ◌≡◌, Bool, true, false, Option, none, some, List, [], ◌∷◌, ◌++◌, Error, All,
}
use inx_coordinator.Quorum.Group.{
  MilestoneMerkleRoots, Event, aborted, answered, Phase, waiting, sending, returned, receive,
}

-- A group's goroutine, with the answers it has received and whether it has sent an error.
pub record Member : Type 0 where
  pub phase : Phase
  pub seen : List MilestoneMerkleRoots
  pub reported : Bool

-- All goroutines of one call: `done` says that `quorumDoneChan` is closed, `verdict` is what the
-- call returns, once it has returned; nil is `some none`.
pub record Race : Type 0 where
  pub members : List Member
  pub done : Bool
  pub verdict : Option (Option Error)

abbrev pub note : Event → List MilestoneMerkleRoots → List MilestoneMerkleRoots
note (answered r) seen = r ∷ seen
note e seen = seen

-- A group receives in its `select`; the abort branch needs the closed channel.
pub data Receives (coo : MilestoneMerkleRoots) (done : Bool) (m n : Member) : Type 0 where
  receives :
      (rounds valid : ℕ) (e : Event)
      → m.phase ≡ waiting (suc rounds) valid
      → (e ≡ aborted → done ≡ true)
      → n ≡ record m { phase = receive coo rounds valid e; seen = note e m.seen }
      → Receives coo done m n

abbrev pub HasReturned : Member → Type 0
HasReturned m = m.phase ≡ returned

pub data Step (coo : MilestoneMerkleRoots) (x y : Race) : Type 0 where
  -- a group goes on in its loop
  loop :
      (before after : List Member) (m n : Member)
      → x.members ≡ before ++ (m ∷ after)
      → Receives coo x.done m n
      → y ≡ record x { members = before ++ (n ∷ after) }
      → Step coo x y
  -- a group's send meets the receive of the call, which returns the error; the group is done
  hand_over :
      (before after : List Member) (m : Member) (e : Error)
      → x.members ≡ before ++ (m ∷ after)
      → m.phase ≡ sending e
      → x.verdict ≡ none
      → y ≡ record x {
        members = before ++ (record m { phase = returned; reported = true } ∷ after);
        verdict = some (some e);
      }
      → Step coo x y
  -- `wg.Wait()` is over, and the channel is closed
  close : All HasReturned x.members → y ≡ record x { done = true } → Step coo x y
  -- the call sees the closed channel, and returns nil
  finish : x.done ≡ true → x.verdict ≡ none → y ≡ record x { verdict = some none } → Step coo x y

pub data Run (coo : MilestoneMerkleRoots) (x : Race) : Race → Type 0 where
  here : Run coo x x
  then : {y z : Race} → Run coo x y → Step coo y z → Run coo x z

-- The groups by their number of nodes, at the start.
abbrev pub members_of : List ℕ → List Member
members_of [] = []
members_of (k ∷ ks) = record { phase = waiting k 0; seen = []; reported = false } ∷ members_of ks

abbrev pub start : List ℕ → Race
start ks = record { members = members_of ks; done = false; verdict = none }
