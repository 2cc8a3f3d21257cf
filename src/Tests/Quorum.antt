-- ===== src/Tests/Quorum.antt =====
-- The quorum: groups of one or two nodes, with answers that agree and answers that differ.
use inx_coordinator.Base.{
  ◌≡◌, ◌≢◌, refl, true, false, none, some, [], ◌∷◌, length, All, Among, arith, soft,
  quorum_group_no_answer, Error,
}
use inx_coordinator.Quorum.Group.{
  MilestoneMerkleRoots, failed, answered, waiting, sending, returned, group_loop, receive,
  next_round, end_of_loop,
}
use inx_coordinator.Quorum.Verdict.{verdict, heard, group_loop-verdict}
use inx_coordinator.Quorum.Race.{
  Member, Race, receives, loop, hand_over, close, finish, Run, here, then, start,
}
use inx_coordinator.Quorum.Agreement.{IsJustified}
use inx_coordinator.Quorum.Answer.{HasAgreed, nil-HasAgreed, error-IsJustified, second_error_blocks}

abbrev ours : MilestoneMerkleRoots
ours = record { inclusion_merkle_root = 1; applied_merkle_root = 2 }

abbrev theirs : MilestoneMerkleRoots
theirs = record { inclusion_merkle_root = 1; applied_merkle_root = 3 }

group_loop-verdict_example :
    group_loop ours (waiting 2 0) (failed ∷ answered theirs ∷ [])
    ≡ verdict ours 0 (heard 2 (failed ∷ answered theirs ∷ []))
group_loop-verdict_example =
    group_loop-verdict ours 2 (failed ∷ answered theirs ∷ []) (omega arith) tt

-- One group with one node, which agrees.
abbrev agreed_member : Member
agreed_member = record {
  phase = receive ours 0 0 (answered ours);
  seen = ours ∷ [];
  reported = false;
}

abbrev agreed_race : Race
agreed_race = record { members = agreed_member ∷ []; done = true; verdict = some none }

agreement : Run ours (start (1 ∷ [])) agreed_race
unfolding receive next_round end_of_loop
agreement =
    then
      (then
        (then here
          (loop [] [] _ agreed_member refl (receives 0 0 (answered ours) refl (λ e. cc) refl) refl))
        (close (refl, tt) refl))
      (finish refl refl refl)

nil-HasAgreed_example : (length agreed_race.members ≡ 1) × All (HasAgreed ours) agreed_race.members
nil-HasAgreed_example = nil-HasAgreed ours (1 ∷ []) agreed_race agreement refl

-- Two groups with one node each: both answers fail, and the error of the first is returned.
abbrev error : Error
error = soft quorum_group_no_answer

abbrev failing : Member
failing = record { phase = sending error; seen = []; reported = false }

abbrev two_failing : Race
two_failing = record { members = failing ∷ failing ∷ []; done = false; verdict = none }

abbrev first_returned : Race
first_returned = record {
  members = record { phase = returned; seen = []; reported = true } ∷ failing ∷ [];
  done = false;
  verdict = some (some error);
}

both_fail : Run ours (start (1 ∷ 1 ∷ [])) two_failing
unfolding receive next_round end_of_loop
both_fail =
    then
      (then here (loop [] (_ ∷ []) _ failing refl (receives 0 0 failed refl (λ e. cc) refl) refl))
      (loop (failing ∷ []) [] _ failing refl (receives 0 0 failed refl (λ e. cc) refl) refl)

first_error : Run ours (start (1 ∷ 1 ∷ [])) first_returned
first_error = then both_fail (hand_over [] (failing ∷ []) failing error refl refl refl refl)

error-IsJustified_example :
    (m : Member) × Among m first_returned.members × IsJustified ours m.seen error
error-IsJustified_example =
    error-IsJustified ours (1 ∷ 1 ∷ []) first_returned error first_error refl

second_error_blocks_example : Among failing first_returned.members × (first_returned.done ≢ true)
second_error_blocks_example =
    second_error_blocks ours (1 ∷ 1 ∷ []) first_returned first_returned
      (record { phase = returned; seen = []; reported = true } ∷ []) [] failing error error
      first_error refl refl refl here
