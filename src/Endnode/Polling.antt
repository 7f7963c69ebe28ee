-- ===== src/Endnode/Polling.antt =====
-- The loops of the clients that poll the clock for the timestamps of a command
-- (examples/wired_basic/wired_rm_client_endnode.cpp). The readings of the clock are a list, one for
-- each turn; `none` is a loop that still polls when the list ends.
use application_aware_resour.Prelude.{
  Bool, true, false, not, ◌&&◌, ◌||◌, List, [], ◌∷◌, Option, none, some, if◌then◌else◌, pos, ltb_ℤ,
  leb_ℤ, eqb_ℤ,
}
use application_aware_resour.Codec.{Timespec}

-- What a turn makes of a target.
pub data Check : Type 0 where
  fires waits invalid : Check

unfoldable pub check : Timespec → Timespec → Check
check target time_now =
    if not (eqb_ℤ target.tv_sec (pos 0)) && leb_ℤ time_now.tv_sec target.tv_sec
    then if ltb_ℤ target.tv_sec time_now.tv_sec
        || (eqb_ℤ time_now.tv_sec target.tv_sec && ltb_ℤ target.tv_nsec time_now.tv_nsec)
      then Check.fires
      else Check.waits
    else Check.invalid

-- What a turn makes of two targets.
pub data Turn (A : Type 0) : Type 0 where
  ends : A → Turn A
  goes_on : Bool → A → Turn A

-- The handling of a message comes to its end, is still polling the clock after the readings, or is
-- undefined; `S` is the state of the client.
pub data Handling (S : Type 0) : Type 0 where
  finished : S → Handling S
  polling : Handling S
  undefined : Handling S

module _ {A : Type 0} where
  -- The loop for one target: it acts and ends, or ends at a target that is not valid.
  unfoldable pub poll : Timespec → (A → A) → List Timespec → A → Option A
  unfolding check
  poll target action [] a = none
  poll target action (time_now ∷ readings) a = elim (check target time_now) [
    | Check.fires ↦ some (action a)
    | Check.waits ↦ poll target action readings a
    | Check.invalid ↦ some a
  ]

  -- What is left to do in a turn for the second target.
  unfoldable pub turn_second : Timespec → (A → A) → Timespec → Bool → A → Turn A
  unfolding check
  turn_second second act_second time_now done a = elim (check second time_now) [
    | Check.fires ↦ Turn.ends (act_second a)
    | Check.waits ↦ Turn.goes_on done a
    | Check.invalid ↦ Turn.ends a
  ]

  -- A turn for two targets; `done` is whether the first one has been acted on.
  unfoldable pub turn_both : Timespec → (A → A) → Timespec → (A → A) → Timespec → Bool → A → Turn A
  unfolding check turn_second
  turn_both first act_first second act_second time_now true a =
      turn_second second act_second time_now true a
  turn_both first act_first second act_second time_now false a = elim (check first time_now) [
    | Check.fires ↦ turn_second second act_second time_now true (act_first a)
    | Check.waits ↦ turn_second second act_second time_now false a
    | Check.invalid ↦ Turn.ends a
  ]

  -- The loop for two targets
  unfoldable pub poll_both :
      Timespec → (A → A) → Timespec → (A → A) → List Timespec → Bool → A → Option A
  unfolding turn_both
  poll_both first act_first second act_second [] done a = none
  poll_both first act_first second act_second (time_now ∷ readings) done a =
      elim (turn_both first act_first second act_second time_now done a) [
        | Turn.ends a' ↦ some a'
        | Turn.goes_on done' a' ↦ poll_both first act_first second act_second readings done' a'
      ]
