-- ===== src/VirtualTime/Wake.antt =====
-- The virtual time thread and those that change the TDF table, as steps: `cond.wait` has no condition
-- in the code, so a notification that comes while the thread is not waiting is lost.
use virtual_time_synchroniza.Prelude.{
  ◌≡◌, ◌≢◌, refl, ◌⊎◌, inl, inr, Bool, true, false, Bytes, done, ◌==◌, if◌then◌else◌, arith, ◌∙◌,
  sym,
}
use mathlib.Core.Path.{subst}
use virtual_time_synchroniza.Floats.{Floats, IsOrdered}
use virtual_time_synchroniza.TdfTable.{TdfTable, enforce_tdf}
use virtual_time_synchroniza.TdfTable
use virtual_time_synchroniza.TdfTable.Update.{set_lem, Adopts, IsValid as TdfTableIsValid}
use virtual_time_synchroniza.Timer.{HostTime}
use virtual_time_synchroniza.Agent.{Agent, IsValid}
use virtual_time_synchroniza.Message.Validity.{with_table-IsValid}
use virtual_time_synchroniza.VirtualTime.{adjust}
use virtual_time_synchroniza.VirtualTime.Adjust.{adjust_done}

-- Between two rounds and not yet in `cond.wait`, in `cond.wait`, or woken.
pub data Phase : Type 0 where
  outside waiting woken : Phase

module _ ⦃fl : Floats⦄ where
  open fl use {LongDouble, l}

  -- `missed` tells whether a notification came since the last round and found nobody waiting.
  pub record Thread : Type 0 where
    pub phase : Phase
    pub missed : Bool
    pub agent : Agent

  -- `notify_all`
  unfoldable pub notify : Phase → Bool → Agent → Thread
  notify outside missed a = record { phase = outside; missed = true; agent = a }
  notify waiting missed a = record { phase = woken; missed = missed; agent = a }
  notify woken missed a = record { phase = woken; missed = missed; agent = a }

  -- The thread behind a change of the table by another thread.
  unfoldable pub changed : Thread → TdfTable → Thread
  changed th t =
      let a : Agent = record (th.agent) { tdf_table = t } in
      if t.notifications == th.agent.tdf_table.notifications
      then record th { agent = a }
      else notify th.phase th.missed a

  pub data Step : Thread → Thread → Type 0 where
    -- An agent's report, by `TdfTable::set`.
    reports :
        (th : Thread) (host : Bytes) (v : LongDouble) (t : TdfTable)
        → TdfTable.set th.agent.config th.agent.tdf_table host v ≡ done t
        → Step th (changed th t)
    -- The controller's `enforceTdf`.
    enforces :
        (th : Thread) (v : LongDouble) → Step th (changed th (enforce_tdf th.agent.tdf_table v))
    waits : (th : Thread) → th.phase ≡ outside → Step th (record th { phase = waiting })
    -- `cond.wait` may return without a notification.
    wakes : (th : Thread) → th.phase ≡ waiting → Step th (record th { phase = woken })
    adjusts :
        (th : Thread) (stop begin : HostTime) (a : Agent)
        → th.phase ≡ woken
        → adjust stop begin th.agent ≡ done a
        → Step th (record { phase = outside; missed = false; agent = a })

  pub data Steps : Thread → Thread → Type 0 where
    still : (th : Thread) → Steps th th
    step : {u v w : Thread} → Step u v → Steps v w → Steps u w

  -- The TDF in force is the one in the shared memory.
  abbrev pub Synchronized : Agent → Type 0
  Synchronized a = a.shared.tdf ≡ a.tdf_table.latest_tdf

  -- The thread is about to run a round, or it missed a notification, or there is nothing to do.
  abbrev pub IsSound : Thread → Type 0
  IsSound th =
      IsValid th.agent × ((th.phase ≡ woken) ⊎ ((th.missed ≡ true) ⊎ Synchronized th.agent))

  changed_same :
      (th : Thread) (t : TdfTable)
      → t.notifications ≡ th.agent.tdf_table.notifications
      → changed th t ≡ record th { agent = record (th.agent) { tdf_table = t } }
  unfolding changed
  changed_same th t e = ground arith

  changed_new :
      (th : Thread) (t : TdfTable)
      → t.notifications ≢ th.agent.tdf_table.notifications
      → changed th t ≡ notify th.phase th.missed (record (th.agent) { tdf_table = t })
  unfolding changed
  changed_new th t e = ground arith

  notify-IsSound : (p : Phase) (missed : Bool) (a : Agent) → IsValid a → IsSound (notify p missed a)
  unfolding notify
  notify-IsSound outside missed a v = (v, inr (inl refl))
  notify-IsSound waiting missed a v = (v, inl refl)
  notify-IsSound woken missed a v = (v, inl refl)

  changed-IsSound :
      (th : Thread) (t : TdfTable)
      → IsSound th
      → TdfTableIsValid t
      → ((t.notifications ≡ th.agent.tdf_table.notifications)
          × (t.latest_tdf ≡ th.agent.tdf_table.latest_tdf))
        ⊎ (t.notifications ≢ th.agent.tdf_table.notifications)
      → IsSound (changed th t)
  changed-IsSound th t (v, s) ok (inl (same, latest)) = rw (changed_same th t same) (
    with_table-IsValid th.agent t v ok,
    elim s [
      | inl ready ↦ inl ready
      | inr (inl missing) ↦ inr (inl missing)
      | inr (inr equal) ↦ inr (inr (equal ∙ sym latest))
    ],
  )
  changed-IsSound th t (v, s) ok (inr new) = rw (changed_new th t new) (
      notify-IsSound th.phase th.missed (record (th.agent) { tdf_table = t })
        (with_table-IsValid th.agent t v ok))

  module _ (laws : IsOrdered l) where
    Step-IsSound : {u w : Thread} → Step u w → IsSound u → IsSound w
    unfolding enforce_tdf
    Step-IsSound (reports th host v t run) s =
        let (t', run', ok, _, _, _, adopts) =
          set_lem laws th.agent.config th.agent.tdf_table host v s.0.tdf_valid in
        let same : t' ≡ t = cc (run, run') in
        changed-IsSound th t s (subst TdfTableIsValid same ok)
          (elim (subst (Adopts th.agent.config th.agent.tdf_table) same adopts) [
            | inl (latest, count, _) ↦ inl (count, latest)
            | inr (_, count, _, _, _) ↦ inr (λ e. omega (arith, e, count))
          ])
    Step-IsSound (enforces th v) s =
        changed-IsSound th (enforce_tdf th.agent.tdf_table v) s
          (record { sorted = s.0.tdf_valid.sorted; no_null = s.0.tdf_valid.no_null })
          (inr (λ e. omega (arith, e)))
    Step-IsSound (waits th out) s =
        (s.0, elim s.1 [ inl ready ↦ absurd (cc (ready, out)) | inr rest ↦ inr rest ])
    Step-IsSound (wakes th w) s = (s.0, inl refl)
    Step-IsSound (adjusts th stop begin a ready run) s =
        let (a', run', ok, equal, _, _) = adjust_done stop begin th.agent s.0 in
        let same : a' ≡ a = cc (run, run') in
        (subst IsValid same ok, inr (inr (subst Synchronized same equal)))

    Steps-IsSound : {u w : Thread} → Steps u w → IsSound u → IsSound w
    Steps-IsSound (still th) s = s
    Steps-IsSound (step one rest) s = Steps-IsSound rest (Step-IsSound one s)

    -- From a valid agent whose shared memory holds the TDF in force, in any interleaving of reports,
    -- enforced TDFs, waits, wake-ups and rounds: wherever the thread waits and has missed no
    -- notification since its last round, the shared memory holds the TDF in force, and the agent is
    -- valid.
    pub waiting-Synchronized :
        (a : Agent) (th : Thread)
        → IsValid a
        → Synchronized a
        → Steps (record { phase = outside; missed = false; agent = a }) th
        → th.phase ≡ waiting
        → th.missed ≡ false
        → IsValid th.agent × Synchronized th.agent
    waiting-Synchronized a th v equal run w none_missed =
        let s = Steps-IsSound run (v, inr (inr equal)) in
        (
          s.0,
          elim s.1 [
            | inl ready ↦ absurd (cc (ready, w))
            | inr (inl missing) ↦ absurd (cc (missing, none_missed))
            | inr (inr same) ↦ same
          ],
        )

  -- Where a TDF is enforced between two rounds, the thread can go on to wait, with a notification
  -- missed, that TDF in force and the shared memory as it was.
  pub enforced_missed :
      (a : Agent) (v : LongDouble)
      → (th : Thread) × Steps (record { phase = outside; missed = false; agent = a }) th
        × (th.phase ≡ waiting)
        × (th.missed ≡ true)
        × (th.agent.tdf_table.latest_tdf ≡ v)
        × (th.agent.shared ≡ a.shared)
  unfolding changed notify enforce_tdf
  enforced_missed a v =
      let here : Thread = record { phase = outside; missed = false; agent = a } in
      let told = changed here (enforce_tdf a.tdf_table v) in
      let behind = notify outside false (record a { tdf_table = enforce_tdf a.tdf_table v }) in
      let same : told ≡ behind =
        changed_new here (enforce_tdf a.tdf_table v) (λ e. omega (arith, e)) in
      (
        record behind { phase = waiting },
        step (subst (Step here) same (enforces here v)) (step (waits behind refl) (still _)),
        refl,
        refl,
        refl,
        refl,
      )
