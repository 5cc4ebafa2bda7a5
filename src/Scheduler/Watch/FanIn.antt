-- ===== src/Scheduler/Watch/FanIn.antt =====
-- The outcome of watchJob does not depend on how the channels interleave.
use muto.Prelude.{
  ℕ, ◌+◌, ◌<◌, String, Bool, true, false, none, some, List, [], ◌∷◌, All, count, length, ◌≡◌, refl,
  if◌then◌else◌, arith, ap, sym,
}
use muto.Agent.{Event, EventType}
use muto.Scheduler.{State}
use muto.Scheduler.Watch.{
  Tally, tally, collect, finish, watch_job, Receive, first, later, Merge, closed, receive,
}

abbrev pub is_completed : Event → Bool
is_completed ev = elim ev.type [ EventType.completed ↦ true | _ ↦ false ]

abbrev pub is_failed : Event → Bool
is_failed ev = elim ev.type [ EventType.failed ↦ true | _ ↦ false ]

-- The number of events of a kind over all channels.
abbrev pub count_all : (Event → Bool) → List (List Event) → ℕ
count_all p [] = 0
count_all p (c ∷ cs) = count p c + count_all p cs

count-Receive :
    (p : Event → Bool) {ev : Event} {cs ds : List (List Event)}
    → Receive ev cs ds
    → count_all p cs ≡ (if p ev then 1 else 0) + count_all p ds
count-Receive p first = omega arith
count-Receive p (later r) = omega (arith, count-Receive p r)

count-closed :
    (p : Event → Bool) (cs : List (List Event)) → All (λ c. c ≡ []) cs → count_all p cs ≡ 0
count-closed p [] h = refl
count-closed p (c ∷ cs) h = omega (arith, ap (count p) h.0, count-closed p cs h.1)

-- However the channels interleave, each kind of event arrives as often as it was sent.
pub count-Merge :
    (p : Event → Bool) {cs : List (List Event)} {evs : List Event}
    → Merge cs evs
    → count p evs ≡ count_all p cs
count-Merge p (closed {cs} h) = sym (count-closed p cs h)
count-Merge p (receive r m) = omega (arith, count-Receive p r, count-Merge p m)

-- With exactly `total` terminal events in the stream the loop ends by its test and has counted
-- them all.
pub collect_exact :
    (total : ℕ) (t : Tally) (evs : List Event)
    → t.completed + t.failed + count is_completed evs + count is_failed evs ≡ total
    → collect total t evs
      ≡ some (record {
        completed = t.completed + count is_completed evs;
        failed = t.failed + count is_failed evs;
      })
unfolding collect
collect_exact total t [] h = ground arith
collect_exact total t (ev ∷ evs) h = ground (arith, collect_exact total (tally ev.type t) evs)

-- With fewer, it returns early on the closed channel.
pub collect_short :
    (total : ℕ) (t : Tally) (evs : List Event)
    → t.completed + t.failed + count is_completed evs + count is_failed evs < total
    → collect total t evs ≡ none
unfolding collect
collect_short total t [] h = ground arith
collect_short total t (ev ∷ evs) h = ground (arith, collect_short total (tally ev.type t) evs)

abbrev pub sums : List (List Event) → Tally
sums cs = record { completed = count_all is_completed cs; failed = count_all is_failed cs }

-- The channel carries one terminal event.
abbrev pub IsDecided : List Event → Type 0
IsDecided c = count is_completed c + count is_failed c ≡ 1

count-decided :
    (cs : List (List Event))
    → All IsDecided cs
    → count_all is_completed cs + count_all is_failed cs ≡ length cs
count-decided [] h = refl
count-decided (c ∷ cs) h = omega (arith, count-decided cs h.1)

-- When every agent's channel carries one terminal event, then for every interleaving of the
-- channels watchJob ends by its test and closes the job with the sums over the channels: the
-- outcome depends on what the agents report and not on the order in which they do.
pub watch_job-Merge :
    {C : Type 0} (s : State C) (id : String) (cs : List (List Event)) (evs : List Event)
    → Merge cs evs
    → All IsDecided cs
    → watch_job s id (length cs) evs ≡ finish s id (sums cs)
unfolding watch_job
watch_job-Merge s id cs evs m h =
    rw
      (collect_exact (length cs) (record { completed = 0; failed = 0 }) evs
        (omega (arith, count-Merge is_completed m, count-Merge is_failed m, count-decided cs h)))
      (rw (count-Merge is_completed m, count-Merge is_failed m) (ap (finish s id) (ground arith)))

-- When the channels close with fewer terminal events than there are agents, as after a cancelled
-- context, watchJob leaves every job as it was, for every interleaving.
pub watch_job-cut_off :
    {C : Type 0} (s : State C) (id : String) (total : ℕ) (cs : List (List Event)) (evs : List Event)
    → Merge cs evs
    → count_all is_completed cs + count_all is_failed cs < total
    → watch_job s id total evs ≡ s
unfolding watch_job
watch_job-cut_off s id total cs evs m h = rw (
    collect_short total (record { completed = 0; failed = 0 }) evs
      (omega (arith, count-Merge is_completed m, count-Merge is_failed m)))
