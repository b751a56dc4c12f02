-- ===== src/Ipc/Creation.antt =====
-- What a creation of the shared memory leaves under the four keys.
use virtual_time_synchroniza.Prelude.{
  ℕ, ◌≡◌, ◌≢◌, refl, sym, ◌∙◌, Bool, true, none, some, ap, Outcome, done, crash, ◌>>=◌, arith,
}
use virtual_time_synchroniza.Prelude.Int.{ℤ}
use mathlib.Core.Path.{subst}
use virtual_time_synchroniza.Ipc.Segments.{IsOpened, open_segment_lem, semaphore_create_lem}
use virtual_time_synchroniza.Semaphore.{num_of_sem_gostop}
use virtual_time_synchroniza.Ipc.{
  SystemV, IsSystemV, Kind, segment, semaphore_set, TimersStateKey, Handles, open_segment,
  semaphore_create, ipc_create, sizeof_timers_state, sizeof_tdf, sizeof_simulators_state,
}

bind_done {ℓ κ} :
    {A : Type ℓ} {B : Type κ} (o : Outcome A) (f : A → Outcome B) {b : B}
    → (o >>= f) ≡ done b
    → (a : A) × (o ≡ done a) × (f a ≡ done b)
bind_done (done a) f e = (a, refl, e)
bind_done (crash x) f e = absurd (ground (arith, e))

pub segment-ne-semaphore_set : segment ≢ semaphore_set
segment-ne-semaphore_set p = absurd (ground (arith, p))

-- The three segments have different keys, and no key is `IPC_PRIVATE`.
abbrev pub AreNames : TimersStateKey → Type 0
AreNames ts =
    (ts.shmkey_timers_state ≢ 0)
    × (ts.shmkey_tdf ≢ 0)
    × (ts.shmkey_simulators_state ≢ 0)
    × (ts.semkey_gostop ≢ 0)
    × (ts.shmkey_timers_state ≢ ts.shmkey_tdf)
    × (ts.shmkey_timers_state ≢ ts.shmkey_simulators_state)
    × (ts.shmkey_tdf ≢ ts.shmkey_simulators_state)

module _ {ℓ} {K : Type ℓ} (sys : SystemV K) where
  -- The keys of what a removal removes name nothing yet. The segment of the simulators may be there.
  abbrev pub AreFree : TimersStateKey → K → Type 0
  AreFree ts k =
      (sys.lookup k segment ts.shmkey_timers_state ≡ none)
      × (sys.lookup k segment ts.shmkey_tdf ≡ none)
      × (sys.lookup k semaphore_set ts.semkey_gostop ≡ none)

  -- The segment of the simulators stands under its key.
  abbrev pub SimulatorsStand : TimersStateKey → Handles → K → Type 0
  SimulatorsStand ts h k =
      (b : Bool) × (sys.lookup k segment ts.shmkey_simulators_state
        ≡ some (record { identifier = h.simulators_state.shmid; removable = b }))

  -- What a removal leaves: the keys are free but that of the simulators' segment.
  abbrev pub IsRemoved : TimersStateKey → Handles → K → Type 0
  IsRemoved ts h k = AreFree ts k × SimulatorsStand ts h k

  -- The four names, with the identifiers of the global variables.
  abbrev pub AreOpen : TimersStateKey → Handles → K → Type 0
  AreOpen ts h k =
      (sys.lookup k segment ts.shmkey_timers_state
        ≡ some (record { identifier = h.timers_state.shmid; removable = true }))
      × (sys.lookup k segment ts.shmkey_tdf
          ≡ some (record { identifier = h.tdf.shmid; removable = true }))
      × (sys.lookup k semaphore_set ts.semkey_gostop
          ≡ some (record { identifier = h.semid_gostop; removable = true }))
      × SimulatorsStand ts h k

  created_open :
      (ts : TimersStateKey) (k4 : K) (h4 : Handles) (k' : K) (h : Handles)
      → Path (Outcome (K × Handles)) (done (k4, h4)) (done (k', h))
      → AreOpen ts h4 k4
      → AreOpen ts h k'
  created_open ts k4 h4 k' h e ok =
      let same_k : k4 ≡ k' = ground (arith, e) in
      let same_h : h4 ≡ h = ground (arith, e) in
      subst (λ j. AreOpen ts j k') same_h (subst (λ j. AreOpen ts h4 j) same_k ok)

  module _ (laws : IsSystemV sys) where
    -- A call on a free name gives an object that the process may remove.
    opened_free :
        (kind : Kind) (key : ℕ) (id : ℤ) (k k' : K)
        → IsOpened sys laws kind key id k k'
        → sys.lookup k kind key ≡ none
        → sys.lookup k' kind key ≡ some (record { identifier = id; removable = true })
    opened_free kind key id k k' (b, names, free) none_there =
        names ∙ ap (λ b. some (record { identifier = id; removable = b })) (free none_there)

    names_open :
        (ts : TimersStateKey) (k k1 k2 k3 k4 : K) (h : Handles)
        → AreNames ts
        → AreFree ts k
        → open_segment sys true ts.shmkey_timers_state sizeof_timers_state k
          ≡ done (k1, h.timers_state)
        → open_segment sys true ts.shmkey_tdf sizeof_tdf k1 ≡ done (k2, h.tdf)
        → open_segment sys true ts.shmkey_simulators_state sizeof_simulators_state k2
          ≡ done (k3, h.simulators_state)
        → semaphore_create sys ts.semkey_gostop num_of_sem_gostop k3 ≡ done (k4, h.semid_gostop)
        → AreOpen ts h k4
    names_open ts k k1 k2 k3 k4 h
          (named_1, named_2, named_3, named_4, timers_tdf, timers_sim, tdf_sim)
          (free_1, free_2, free_4) e1 e2 e3 e4 =
        let timers = ts.shmkey_timers_state in
        let (in_1, same_1) =
          open_segment_lem sys laws true timers sizeof_timers_state k named_1 e1 in
        let (in_2, same_2) =
          open_segment_lem sys laws true ts.shmkey_tdf sizeof_tdf k1 named_2 e2 in
        let ((b, in_3, _), same_3) =
          open_segment_lem sys laws true ts.shmkey_simulators_state sizeof_simulators_state k2
            named_3 e3 in
        let (in_4, same_4) =
          semaphore_create_lem sys laws ts.semkey_gostop num_of_sem_gostop k3 named_4 e4 in
        let sets : (key : ℕ) → ¬ ((segment ≡ semaphore_set) × (key ≡ ts.semkey_gostop)) =
          (λ key (p, q). segment-ne-semaphore_set p) in
        let segments : (key : ℕ) → ¬ ((semaphore_set ≡ segment) × (ts.semkey_gostop ≡ key)) =
          (λ key (p, q). segment-ne-semaphore_set (sym p)) in
        (
          same_4 segment timers (sets _)
              ∙ same_3 segment timers (λ (p, q). timers_sim q)
              ∙ same_2 segment timers (λ (p, q). timers_tdf q)
              ∙ opened_free segment timers _ k k1 in_1 free_1,
          same_4 segment ts.shmkey_tdf (sets _)
              ∙ same_3 segment ts.shmkey_tdf (λ (p, q). tdf_sim q)
              ∙ opened_free segment ts.shmkey_tdf _ k1 k2 in_2
                  (same_1 segment ts.shmkey_tdf (λ (p, q). timers_tdf (sym q)) ∙ free_2),
          opened_free semaphore_set ts.semkey_gostop _ k3 k4 in_4 (
              same_3 semaphore_set ts.semkey_gostop (segments _)
              ∙ same_2 semaphore_set ts.semkey_gostop (segments _)
              ∙ same_1 semaphore_set ts.semkey_gostop (segments _)
              ∙ free_4),
          (b, same_4 segment ts.shmkey_simulators_state (sets _) ∙ in_3),
        )

    -- After a creation on free keys they name what the global variables hold, and the process may remove it.
    pub ipc_create_lem :
        (ts : TimersStateKey) (k : K) {k' : K} {h : Handles}
        → AreNames ts
        → AreFree ts k
        → ipc_create sys ts k ≡ done (k', h)
        → AreOpen ts h k'
    unfolding ipc_create
    ipc_create_lem ts k {k'} {h} named free e =
        let ((k1, a1), e1, r1) =
          bind_done (open_segment sys true ts.shmkey_timers_state sizeof_timers_state k) _ e in
        let ((k2, a2), e2, r2) =
          bind_done (open_segment sys true ts.shmkey_tdf sizeof_tdf k1) _ r1 in
        let ((k3, a3), e3, r3) =
          bind_done (open_segment sys true ts.shmkey_simulators_state sizeof_simulators_state k2) _
            r2 in
        let ((k4, id), e4, r4) =
          bind_done (semaphore_create sys ts.semkey_gostop num_of_sem_gostop k3) _ r3 in
        created_open ts k4 _ k' h r4 (names_open ts k k1 k2 k3 k4 _ named free e1 e2 e3 e4)
