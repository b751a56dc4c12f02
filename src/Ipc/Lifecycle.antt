-- ===== src/Ipc/Lifecycle.antt =====
-- What a removal of the shared memory leaves in the system, and what an attachment finds.
use virtual_time_synchroniza.Prelude.{ℕ, ◌≡◌, ◌≢◌, refl, sym, ◌∙◌, none, done, crash, exits}
use virtual_time_synchroniza.Ipc.Segments.{SameBut, remove_segment_lem, semaphore_remove_done}
use virtual_time_synchroniza.Ipc.{
  SystemV, IsSystemV, Kind, segment, semaphore_set, TimersStateKey, Handles, open_segment,
  ipc_create, ipc_attach, remove_segment, ipc_remove, sizeof_timers_state,
}
use virtual_time_synchroniza.Ipc.Creation.{
  segment-ne-semaphore_set, AreNames, AreFree, IsRemoved, AreOpen, ipc_create_lem,
}

module _ {ℓ} {K : Type ℓ} (sys : SystemV K) where
  module _ (laws : IsSystemV sys) where
    ipc_remove_lem :
        (ts : TimersStateKey) (h : Handles) (k : K)
        → AreNames ts
        → AreOpen sys ts h k
        → (k'' : K) × (ipc_remove sys h k ≡ done k'') × IsRemoved sys ts h k''
    unfolding ipc_remove
    ipc_remove_lem ts h k (_, _, _, _, timers_tdf, timers_sim, tdf_sim)
          (timers, tdf, gostop, (b, sim)) =
        let other = segment-ne-semaphore_set in
        let k0 = sys.shmdt h.timers_state.address k in
        let dt_0 = laws.shmdt_keeps h.timers_state.address k in
        let (gone_1, same_1) =
          remove_segment_lem sys laws ts.shmkey_timers_state h.timers_state k0
            (dt_0 _ _ ∙ timers) in
        let k1 = remove_segment sys h.timers_state k0 in
        let k2 = sys.shmdt h.simulators_state.address (sys.shmdt h.tdf.address k1) in
        let dt_2 : (kind : Kind) (key : ℕ) → sys.lookup k2 kind key ≡ sys.lookup k1 kind key =
          (λ kind key. laws.shmdt_keeps _ _ kind key ∙ laws.shmdt_keeps _ _ kind key) in
        let to_2 : SameBut sys segment ts.shmkey_timers_state k k2 =
          (λ kind key ne. dt_2 kind key ∙ same_1 kind key ne ∙ dt_0 kind key) in
        let (gone_3, same_3) =
          remove_segment_lem sys laws ts.shmkey_tdf h.tdf k2
            (to_2 segment ts.shmkey_tdf (λ (p, q). timers_tdf (sym q)) ∙ tdf) in
        let k3 = remove_segment sys h.tdf k2 in
        let set_3 =
          same_3 semaphore_set ts.semkey_gostop (λ (p, q). other (sym p))
          ∙ to_2 semaphore_set ts.semkey_gostop (λ (p, q). other (sym p))
          ∙ gostop in
        let (k4, removed, gone_4) =
          laws.rmid_named semaphore_set ts.semkey_gostop h.semid_gostop k3 set_3 in
        let keeps : (key : ℕ) → sys.lookup k4 segment key ≡ sys.lookup k3 segment key = (λ key.
          laws.rmid_others semaphore_set h.semid_gostop k3 k4 segment key removed
            (λ (p, _, _, _). other p)) in
        (
          k4,
          semaphore_remove_done sys h.semid_gostop k3 removed,
          (
            (
              keeps _
                  ∙ same_3 segment ts.shmkey_timers_state (λ (p, q). timers_tdf q)
                  ∙ dt_2 _ _
                  ∙ gone_1,
              keeps _ ∙ gone_3,
              gone_4,
            ),
            (
              b,
              keeps _
                  ∙ same_3 segment ts.shmkey_simulators_state (λ (p, q). tdf_sim (sym q))
                  ∙ to_2 segment ts.shmkey_simulators_state (λ (p, q). timers_sim (sym q))
                  ∙ sim,
            ),
          ),
        )

    -- Where nothing stood under the keys of the agent's clocks, TDF and semaphores, a removal after a creation
    -- that has succeeded does not fail either, and frees those keys again; but the segment of the simulators,
    -- whether it was there before or not, still stands under its key. The segments have to have different
    -- keys, and no key may be `IPC_PRIVATE`.
    pub ipc_remove-ipc_create :
        (ts : TimersStateKey) (k : K) {k' : K} {h : Handles}
        → AreNames ts
        → AreFree sys ts k
        → ipc_create sys ts k ≡ done (k', h)
        → (k'' : K) × (ipc_remove sys h k' ≡ done k'') × IsRemoved sys ts h k''
    ipc_remove-ipc_create ts k {k'} {h} named free e =
        ipc_remove_lem ts h k' named (ipc_create_lem sys laws ts k named free e)

    -- Where the timers' segment is not there, as before the creation and after the removal, a reader that
    -- attaches to the clocks ends with status 2. Its key may not be `IPC_PRIVATE`.
    pub ipc_attach_missing :
        (ts : TimersStateKey) (k : K)
        → ts.shmkey_timers_state ≢ 0
        → sys.lookup k segment ts.shmkey_timers_state ≡ none
        → ipc_attach sys ts k ≡ crash (exits 2)
    unfolding ipc_attach open_segment
    ipc_attach_missing ts k named e =
        rw (laws.get_missing segment ts.shmkey_timers_state sizeof_timers_state k named e) refl
