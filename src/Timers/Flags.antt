-- ===== src/Timers/Flags.antt =====
-- The flags of the timers, and the state in which no wait has lost its flag: registering keeps it.
use application_aware_resour.Prelude.{
  ℕ, ap₂, ltb, ◌+◌, ◌≡◌, ◌≢◌, refl, arith, List, [], ◌∷◌, ◌++◌, some, Bool, true, false, All, ◌==◌,
  ◌&&◌, if◌then◌else◌, if_both, Option-cases, inl, inr,
}
use application_aware_resour.Uuid.{Uuid, equal}
use application_aware_resour.Uuid.Order.{equal_self}
use application_aware_resour.Timers.{
  Timers, Wait, Registration, Status, find_id, insert_missing, is_waiting, register_timer,
  register_all, expire_wait,
}

-- The identifier has its flag.
abbrev pub Flagged : Uuid → List (Uuid × Bool) → Type 0
Flagged id m = (flag : Bool) × (find_id id m ≡ some flag)

-- The wait is not cancelled, and its identifier has its flag.
abbrev pub IsLive : {Task : Type 0} → List (Uuid × Bool) → Wait Task → Type 0
IsLive m w = (w.status ≢ Status.aborted) × Flagged w.id m

abbrev pub once : Bool → ℕ
once test = if test then 1 else 0

module _ {Task : Type 0} where
  -- How often a timer is waited for, and how often its task has run.
  unfoldable pub count_waits : ℕ → List (Wait Task) → ℕ
  count_waits n [] = 0
  count_waits n (w ∷ ws) = once (w.timer == n) + count_waits n ws

  unfoldable pub count_ran : ℕ → List (ℕ × Task) → ℕ
  count_ran n [] = 0
  count_ran n ((m, f) ∷ l) = once (m == n) + count_ran n l

  count_waits-append :
      (n : ℕ) (ws : List (Wait Task)) (w : Wait Task)
      → count_waits n (ws ++ w ∷ []) ≡ count_waits n ws + once (w.timer == n)
  unfolding count_waits
  count_waits-append n [] w = omega arith
  count_waits-append n (v ∷ ws) w = omega (arith, count_waits-append n ws w)

  pub count_ran-append :
      (n m : ℕ) (f : Task) (l : List (ℕ × Task))
      → count_ran n (l ++ (m, f) ∷ []) ≡ count_ran n l + once (m == n)
  unfolding count_ran
  count_ran-append n m f [] = omega arith
  count_ran-append n m f ((k, g) ∷ l) = omega (arith, count_ran-append n m f l)

-- Every timer that was created, and no other, is waited for once or has run once, not both.
pub record IsSound {Task : Type 0} (st : Timers Task) : Type 0 where
  pub live : All (IsLive st.timer_repeat) st.waits
  pub counted : (n : ℕ) → count_waits n st.waits + count_ran n st.ran ≡ once (ltb n st.created)

Flagged-insert :
    (id other : Uuid) (flag : Bool) (m : List (Uuid × Bool))
    → Flagged id m
    → Flagged id ((other, flag) ∷ m)
unfolding find_id
Flagged-insert id other flag m (b, e) = by_test (equal other id)
  where
    by_test : (test : Bool) → (c : Bool) × ((if test then some flag else find_id id m) ≡ some c)
    by_test true = (flag, refl)
    by_test false = (b, e)

pub insert_missing-Flagged :
    (id other : Uuid) (flag : Bool) (m : List (Uuid × Bool))
    → Flagged id m
    → Flagged id (insert_missing other flag m)
unfolding insert_missing find_id
insert_missing-Flagged id other flag m f = elim (Option-cases (find_id other m)) [
  | inl e ↦ rw (e, insert_missing) (Flagged-insert id other flag m f)
  | inr (b, e) ↦ rw (e, insert_missing) f
]

insert_missing-own :
    (id : Uuid) (flag : Bool) (m : List (Uuid × Bool)) → Flagged id (insert_missing id flag m)
unfolding insert_missing find_id
insert_missing-own id flag m = elim (Option-cases (find_id id m)) [
  | inl e ↦ rw (e, insert_missing) (flag, rw (equal_self id, find_id) refl)
  | inr (b, e) ↦ rw (e, insert_missing) (b, e)
]

created_next :
    (n created waits ran waits' : ℕ)
    → waits' ≡ waits + once (created == n)
    → waits + ran ≡ once (ltb n created)
    → waits' + ran ≡ once (ltb n (created + 1))
created_next n created waits ran waits' e h = ground arith

module _ {Task : Type 0} where
  All-weaken :
      (m m' : List (Uuid × Bool)) (ws : List (Wait Task))
      → ((id : Uuid) → Flagged id m → Flagged id m')
      → All (IsLive m) ws
      → All (IsLive m') ws
  All-weaken m m' [] h k = tt
  All-weaken m m' (w ∷ ws) h ((live, f), rest) = ((live, h w.id f), All-weaken m m' ws h rest)

  All-last :
      (P : Wait Task → Type 0) (ws : List (Wait Task)) (w : Wait Task)
      → All P ws
      → P w
      → All P (ws ++ w ∷ [])
  All-last P [] w h last = (last, tt)
  All-last P (v ∷ ws) w (first, rest) last = (first, All-last P ws w rest last)

  pub register_timer-IsSound :
      (r : Registration Task) (st : Timers Task) → IsSound st → IsSound (register_timer r st)
  unfolding register_timer
  register_timer-IsSound r st s =
      let flags = insert_missing r.id r.repeat st.timer_repeat in
      let w : Wait Task = record {
        timer = st.created;
        id = r.id;
        duration = r.duration;
        function = r.function;
        status = Status.waiting;
      } in
      record {
        live =
            All-last (IsLive flags) st.waits w
              (All-weaken st.timer_repeat flags st.waits
                (λ id. insert_missing-Flagged id r.id r.repeat st.timer_repeat) s.live)
              ((λ h. cc), insert_missing-own r.id r.repeat st.timer_repeat);
        counted =
            λ n. created_next n st.created _ _ _ (count_waits-append n st.waits w) (s.counted n);
      }

  pub register_all-IsSound :
      (rs : List (Registration Task)) (st : Timers Task) → IsSound st → IsSound (register_all rs st)
  unfolding register_all
  register_all-IsSound [] st s = s
  register_all-IsSound (r ∷ rs) st s =
      register_all-IsSound rs (register_timer r st) (register_timer-IsSound r st s)

  pub register_all-Flagged :
      (rs : List (Registration Task)) (id : Uuid) (st : Timers Task)
      → Flagged id st.timer_repeat
      → Flagged id (register_all rs st).timer_repeat
  unfolding register_all register_timer
  register_all-Flagged [] id st f = f
  register_all-Flagged (r ∷ rs) id st f =
      register_all-Flagged rs id (register_timer r st)
        (insert_missing-Flagged id r.id r.repeat st.timer_repeat f)

  pub expire_wait-IsLive :
      (m : List (Uuid × Bool)) (n : ℕ) (ws : List (Wait Task))
      → All (IsLive m) ws
      → All (IsLive m) (expire_wait n ws)
  unfolding expire_wait
  expire_wait-IsLive m n [] h = tt
  expire_wait-IsLive m n (w ∷ ws) (first, rest) = (
    if_both (IsLive m) (w.timer == n && is_waiting w.status) ((λ h. cc), first.1) first,
    expire_wait-IsLive m n ws rest,
  )

  pub count_waits-expire_wait :
      (k n : ℕ) (ws : List (Wait Task)) → count_waits k (expire_wait n ws) ≡ count_waits k ws
  unfolding expire_wait count_waits
  count_waits-expire_wait k n [] = refl
  count_waits-expire_wait k n (w ∷ ws) =
      ap₂ (λ a b. once (a == k) + b) (same_timer (w.timer == n && is_waiting w.status))
        (count_waits-expire_wait k n ws)
    where
      same_timer :
          (test : Bool) → (if test then record w { status = Status.expired } else w).timer ≡ w.timer
      same_timer true = refl
      same_timer false = refl
