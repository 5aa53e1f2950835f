-- ===== src/Printer/Invariant.antt =====
-- What holds in every state of a printer: who works, what is queued, and what the flag says.
use barhandler_manager.Prelude.{
  ℕ, ◌+◌, ◌≡◌, ◌≢◌, refl, ap, sym, ◌∙◌, inl, inr, Bool, true, false, Option, none, some, List, [],
  ◌∷◌, ◌++◌, length, arith, if◌then◌else◌, Bool-cases, nat_eq,
}
use barhandler_manager.Printer.Queue.{
  row_failed, unavailable, End, wrote, lost, broke, Worker, absent, waiting, preparing, flushing,
  flushed, Device, settle, ended, fail_jobs, fail_queued_jobs, enqueue, taken, Prepared, ready,
  lost_before, refused, job_failed, connection_lost, prepared, write_ended, resumed,
  late_write_ended, connect, started,
}
use barhandler_manager.Printer.Account.{held, late, fail_jobs-all}

abbrev pub flag : Bool → ℕ
flag b = if b then 1 else 0

-- A discarded device has no worker; only a discarded device has a write of a worker that was cancelled;
-- without a worker nothing is queued and there is no handle; and the flag tells whether a job is in work.
abbrev pub IsSound : Device → Type 0
IsSound d =
    (d.retired ≡ true → d.worker ≡ absent)
    × (d.retired ≡ false → d.writing ≡ none)
    × (d.worker ≡ absent → (d.queue ≡ []) × (d.connected ≡ false))
    × (flag d.in_flight ≡ length (held d.worker) + length (late d.writing))

-- A device whose worker has not ended is not discarded.
pub in_use :
    (d : Device) (w : Worker)
    → IsSound d
    → d.worker ≡ w
    → w ≢ absent
    → (d.retired ≡ false) × (d.writing ≡ none)
in_use d w (unmanned, alone, idle, told) e some_one = elim (Bool-cases d.retired) [
  | inl h ↦ absurd (some_one (sym e ∙ unmanned h))
  | inr h ↦ (h, alone h)
]

-- The fields that an invariant reads, where a worker takes over that has not ended
stays :
    (d d' : Device)
    → d'.retired ≡ false
    → d'.writing ≡ none
    → d'.worker ≢ absent
    → flag d'.in_flight ≡ length (held d'.worker)
    → IsSound d'
stays d d' kept alone some_one told = (
  λ h. absurd (cc (kept, h)),
  λ h. alone,
  λ h. absurd (some_one h),
  omega (arith, told, ap (λ o. length (late o)) alone),
)

-- The same where the worker has ended
pub ends :
    (d' : Device)
    → (d'.retired ≡ false → d'.writing ≡ none)
    → d'.worker ≡ absent
    → d'.queue ≡ []
    → d'.connected ≡ false
    → flag d'.in_flight ≡ length (late d'.writing)
    → IsSound d'
ends d' alone gone empty off told =
    (λ h. gone, alone, λ h. (empty, off), omega (arith, told, ap (λ w. length (held w)) gone))

connection_lost-IsSound :
    (d : Device) (job : ℕ) → d.writing ≡ none → IsSound (connection_lost job d)
unfolding connection_lost fail_queued_jobs ended settle
connection_lost-IsSound d job alone =
    let failed = ended job row_failed (unavailable "unreachable") d in
    let gone : Device = record failed {
      connected = false;
      worker = absent;
      in_flight = false;
      queue = [];
    } in
    let e = fail_jobs-all d.queue gone in
    ends (fail_jobs d.queue gone) (λ h. ap (λ (y : Device). y.writing) e ∙ alone)
      (ap (λ (y : Device). y.worker) e) (ap (λ (y : Device). y.queue) e)
      (ap (λ (y : Device). y.connected) e)
      (ap (λ (y : Device). flag y.in_flight) e
        ∙ sym (ap (λ (y : Device). length (late y.writing)) e ∙ ap (λ o. length (late o)) alone))

pub by_test :
    (P : Device → Type 0) (b : Bool) (x y : Device)
    → (b ≡ true → P x)
    → (b ≡ false → P y)
    → P (if b then x else y)
by_test P true x y f g = f refl
by_test P false x y f g = g refl

pub enqueue-IsSound : (job : ℕ) (d : Device) → IsSound d → IsSound (enqueue job d)
unfolding enqueue ended settle
enqueue-IsSound job d (unmanned, alone, idle, told) =
    by_test IsSound d.connected (record d { queue = d.queue ++ job ∷ [] })
      (ended job row_failed (unavailable "unavailable") d)
      (λ e. (unmanned, alone, λ h. absurd (cc (e, (idle h).1)), told))
      λ e. (unmanned, alone, idle, told)

pub taken-IsSound :
    (d : Device) (w : Worker) (jobs : List ℕ) → d.worker ≡ w → IsSound d → IsSound (taken w jobs d)
unfolding taken
taken-IsSound d waiting (job ∷ rest) e sound =
    let (kept, alone) = in_use d waiting sound e (λ h. cc h) in
    stays d (taken waiting (job ∷ rest) d) kept alone (λ h. cc h) refl
taken-IsSound d waiting [] e sound = sound
taken-IsSound d absent jobs e sound = sound
taken-IsSound d (preparing job) jobs e sound = sound
taken-IsSound d (flushing job) jobs e sound = sound
taken-IsSound d (flushed job end') jobs e sound = sound

pub flag_of_held :
    (d : Device) (w : Worker)
    → d.worker ≡ w
    → d.writing ≡ none
    → IsSound d
    → flag d.in_flight ≡ length (held w)
flag_of_held d w e alone (_, _, _, told) =
    omega (arith, told, ap (λ w. length (held w)) e, ap (λ o. length (late o)) alone)

pub prepared-IsSound :
    (d : Device) (w : Worker) (outcome : Prepared)
    → d.worker ≡ w
    → IsSound d
    → IsSound (prepared w outcome d)
unfolding prepared job_failed ended settle
prepared-IsSound d (preparing job) outcome e sound = by outcome
  where
    used : (d.retired ≡ false) × (d.writing ≡ none)
    used = in_use d (preparing job) sound e (λ h. cc h)

    by : (outcome : Prepared) → IsSound (prepared (preparing job) outcome d)
    by ready =
        stays d (prepared (preparing job) ready d) used.0 used.1 (λ h. cc h)
          (flag_of_held d (preparing job) e used.1 sound)
    by lost_before = connection_lost-IsSound d job used.1
    by (refused reply) =
        stays d (prepared (preparing job) (refused reply) d) used.0 used.1 (λ h. cc h) refl
prepared-IsSound d absent outcome e sound = sound
prepared-IsSound d waiting outcome e sound = sound
prepared-IsSound d (flushing job) outcome e sound = sound
prepared-IsSound d (flushed job end') outcome e sound = sound

pub write_ended-IsSound :
    (d : Device) (w : Worker) (end' : End)
    → d.worker ≡ w
    → IsSound d
    → IsSound (write_ended w end' d)
unfolding write_ended
write_ended-IsSound d (flushing job) end' e sound =
    let (kept, alone) = in_use d (flushing job) sound e (λ h. cc h) in
    stays d (write_ended (flushing job) end' d) kept alone (λ h. cc h)
      (flag_of_held d (flushing job) e alone sound)
write_ended-IsSound d absent end' e sound = sound
write_ended-IsSound d waiting end' e sound = sound
write_ended-IsSound d (preparing job) end' e sound = sound
write_ended-IsSound d (flushed job end'') end' e sound = sound

pub resumed-IsSound : (d : Device) (w : Worker) → d.worker ≡ w → IsSound d → IsSound (resumed w d)
unfolding resumed job_failed ended settle
resumed-IsSound d (flushed job end') e sound = by end'
  where
    used : (d.retired ≡ false) × (d.writing ≡ none)
    used = in_use d (flushed job end') sound e (λ h. cc h)

    by : (end' : End) → IsSound (resumed (flushed job end') d)
    by wrote = stays d (resumed (flushed job wrote) d) used.0 used.1 (λ h. cc h) refl
    by lost = connection_lost-IsSound d job used.1
    by broke = stays d (resumed (flushed job broke) d) used.0 used.1 (λ h. cc h) refl
resumed-IsSound d absent e sound = sound
resumed-IsSound d waiting e sound = sound
resumed-IsSound d (preparing job) e sound = sound
resumed-IsSound d (flushing job) e sound = sound

started-present : (w : Worker) → (started w ≢ absent) × (held (started w) ≡ held w)
started-present absent = (λ h. cc h, refl)
started-present waiting = (λ h. cc h, refl)
started-present (preparing job) = (λ h. cc h, refl)
started-present (flushing job) = (λ h. cc h, refl)
started-present (flushed job end') = (λ h. cc h, refl)

pub connect-IsSound : (d : Device) → IsSound d → IsSound (connect d)
unfolding connect
connect-IsSound d sound =
    let (unmanned, alone, idle, told) = sound in
    let on : Device = record d { connected = true; worker = started d.worker } in
    by_test IsSound d.retired d (if d.connected then d else on) (λ e. sound)
      λ e.
        by_test IsSound d.connected d on (λ f. sound)
          λ f.
            let (present, same) = started-present d.worker in
            stays d on e (alone e) present
              (omega (arith, told, ap (λ o. length (late o)) (alone e), ap length same))

pub late_write_ended-IsSound :
    (d : Device) (writing : Option ℕ) (end' : End)
    → d.writing ≡ writing
    → IsSound d
    → IsSound (late_write_ended writing end' d)
unfolding late_write_ended ended settle
late_write_ended-IsSound d none end' e sound = sound
late_write_ended-IsSound d (some job) end' e (unmanned, alone, idle, told) =
    let discarded : d.retired ≡ true = elim (Bool-cases d.retired) [
      | inl h ↦ h
      | inr h ↦ let none_left = alone h in absurd (cc (e, none_left))
    ] in
    let gone : length (held d.worker) ≡ 0 = ap (λ w. length (held w)) (unmanned discarded) in
    (unmanned, λ h. refl, idle, omega (arith, gone))
